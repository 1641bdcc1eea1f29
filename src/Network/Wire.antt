-- ===== src/Network/Wire.antt =====
-- The tasks of a connection in src/network.rs: `send_message`, `write_loop`, `read_loop`, and the handshake of
-- `establish_connection`. A message is a line of JSON; serde_json is a parameter.
use gresse.Prelude.{
  ℕ, zero, suc, ◌≡◌, refl, ap, Bool, false, Option, none, some, List, [], ◌∷◌, ◌++◌, take,
  if◌then◌else◌, Outcome, ok, ◌>>=◌, expect, nat_key, arith,
}
use gresse.Set
use gresse.Dots.{Pid}
use gresse.Text.{Text}
use gresse.Text.Split.{IsFree}
use gresse.Text.Lines.{lines, line_feed, carriage_return, ends_with, starts_with}
use gresse.ObjectStorage.{Codec}
use gresse.Network.{ConnectionResult, established, failed}

-- `peer` is the pid that the other end sent, if the handshake came to an end in time; `ready` is
-- whether the stream was ready after it, `taken` whether the replica will take the writer.
unfoldable pub establish_connection : Option Pid → Option Pid → Bool → Bool → ConnectionResult
establish_connection expected_pid none ready taken = failed expected_pid
establish_connection expected_pid (some pid) ready taken =
    if ready then established expected_pid pid taken else failed expected_pid

-- What `next_line` returns, up to the end of the stream.
pub data NextLine : Type 0 where
  line : Text → NextLine
  read_failed : NextLine

module _ {M : Type 0} (codec : Codec M) where
  unfoldable pub send_message : M → Outcome Text
  send_message m = do json ← expect (codec.to_string m); ok (json ++ line_feed ∷ [])

  -- A write that fails has written some bytes, and ends the loop.
  unfoldable pub write_loop : List (M × Option ℕ) → Outcome Text
  write_loop [] = ok []
  write_loop ((m, none) ∷ requests) = do
    sent ← send_message m
    later ← write_loop requests
    ok (sent ++ later)
  write_loop ((m, some written) ∷ requests) = do sent ← send_message m; ok (take written sent)

  abbrev deliver : Option M → (ℕ → List M) → ℕ → List M
  deliver none later room = later room
  deliver (some m) later zero = []
  deliver (some m) later (suc room) = m ∷ later room

  -- The messages that the replica gets: it takes as many as `room` says, then its channel is closed. A
  -- line that is no message is passed over.
  unfoldable pub read_loop : List NextLine → ℕ → List M
  read_loop [] room = []
  read_loop (read_failed ∷ rest) room = []
  read_loop (line text ∷ rest) room = deliver (codec.from_slice text) (read_loop rest) room

  -- What is known of JSON on one line.
  pub record IsLine (m : M) : Type 0 where
    pub text : Text
    pub printed : codec.to_string m ≡ some text
    pub parsed : codec.from_slice text ≡ some m
    pub one_line : IsFree line_feed text
    pub no_return : ends_with carriage_return text ≡ false

lines-append :
    (text rest : Text)
    → IsFree line_feed text
    → ends_with carriage_return text ≡ false
    → lines (text ++ line_feed ∷ rest) ≡ text ∷ lines rest
unfolding lines Set.contains ends_with starts_with
lines-append [] rest f e = ground arith
lines-append (c ∷ []) rest f e = ground arith
lines-append (c ∷ d ∷ text) rest f e = ground (arith, lines-append (d ∷ text) rest)

append_line : (text rest : Text) → (text ++ line_feed ∷ []) ++ rest ≡ text ++ line_feed ∷ rest
append_line [] rest = refl
append_line (c ∷ text) rest = ap (λ t. c ∷ t) (append_line text rest)

abbrev pub as_sent : {M : Type 0} → List M → List (M × Option ℕ)
as_sent [] = []
as_sent (m ∷ ms) = (m, none) ∷ as_sent ms

abbrev pub as_lines : List Text → List NextLine
as_lines [] = []
as_lines (text ∷ texts) = line text ∷ as_lines texts

module _ {M : Type 0} (codec : Codec M) where
  -- Messages that are written without an error are written as a text, and whoever reads its lines
  -- gets the same messages in the same order, as far as its channel takes them, if each is printed
  -- on one line that is read back as the message.
  pub read_loop-write_loop :
      (messages : List M) (room : ℕ)
      → ((m : M) → IsLine codec m)
      → (bytes : Text) × (write_loop codec (as_sent messages) ≡ ok bytes)
        × (read_loop codec (as_lines (lines bytes)) room ≡ take room messages)
  unfolding write_loop send_message read_loop lines
  read_loop-write_loop [] zero law = ([], refl, refl)
  read_loop-write_loop [] (suc room) law = ([], refl, refl)
  read_loop-write_loop (m ∷ messages) zero law =
      let w = law m in
      let (bytes, e, r) = read_loop-write_loop messages zero law in
      let first = lines-append w.text bytes w.one_line w.no_return in
      (
        (w.text ++ line_feed ∷ []) ++ bytes,
        rw (w.printed, e) refl,
        rw (append_line w.text bytes, first, w.parsed) refl,
      )
  read_loop-write_loop (m ∷ messages) (suc room) law =
      let w = law m in
      let (bytes, e, r) = read_loop-write_loop messages room law in
      let first = lines-append w.text bytes w.one_line w.no_return in
      (
        (w.text ++ line_feed ∷ []) ++ bytes,
        rw (w.printed, e) refl,
        rw (append_line w.text bytes, first, w.parsed) (ap (λ ms. m ∷ ms) r),
      )
