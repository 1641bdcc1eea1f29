-- ===== src/Replica/Descriptor/Display.antt =====
-- `Display`, `FromStr` and `object_path` of `ReplicaDescriptor` in src/replica_helpers.rs. The text of a
-- socket's address is that of `std::net::SocketAddr`, with what is known of it as hypotheses.
use gresse.Prelude.{
  ◌≡◌, ◌≢◌, refl, ℕ, suc, ◌-◌, ◌^◌, ◌≤◌, List, [], ◌∷◌, ◌++◌, arith, nat_key, none, some, Option,
  pos_part, neg_part, ◌∙◌, ap,
}
use gresse.Set
use gresse.Dots.{Pid, Counter}
use gresse.Text.{
  Text, comma, slash, is_slash, split_on, after_last, trim_end_matches, print_nat, print_int,
  parse_nat, parse_int,
}
use gresse.Text.Split
use gresse.Text.Split.{IsFree, IsFree-append, append_nil}
use gresse.Text.Decimal.{
  print_nat-IsFree, print_int-IsFree, parse_nat-print_nat, parse_int-print_int,
}
use gresse.Replica.Descriptor.{ReplicaDescriptor}

abbrev pub u128_max : ℕ
u128_max = 2 ^ 128 - 1

abbrev pub i64_magnitude : ℕ
i64_magnitude = 2 ^ 63 - 1

-- What is called of the type of addresses.
pub record AddrText (Addr : Type 0) : Type 0 where
  pub print : Addr → Text
  pub parse : Text → Option Addr

abbrev pub print_final : Option Counter → Text
print_final none = []
print_final (some c) = comma ∷ print_int c

abbrev parse_final : List Text → Option (Option Counter)
parse_final [] = some none
parse_final (text ∷ []) = elim (parse_int i64_magnitude text) [
  | none ↦ none
  | some c ↦ some (some c)
]
parse_final (_ ∷ _ ∷ _) = none

module _ {Addr : Type 0} where
  abbrev described :
      Option Pid
      → Option Addr
      → Option Counter
      → Option (Option Counter)
      → Option (ReplicaDescriptor Addr)
  described (some p) (some a) (some g) (some f) =
      some (record { pid = p; address = a; gc_counter = g; final_counter = f })
  described (some p) (some a) (some g) none = none
  described (some p) (some a) none f = none
  described (some p) none g f = none
  described none a g f = none

module _ {Addr : Type 0} (addr : AddrText Addr) where
  -- `fmt`.
  unfoldable pub display : ReplicaDescriptor Addr → Text
  display d =
      print_nat d.pid
      ++ (comma
          ∷ (addr.print d.address
              ++ (comma ∷ (print_int d.gc_counter ++ print_final d.final_counter))))

  unfoldable pub object_path : Text → ReplicaDescriptor Addr → Text
  object_path directory d = trim_end_matches is_slash directory ++ (slash ∷ display d)

  -- The values that `parts.next()` returns, one after the other.
  abbrev of_parts : List Text → Option (ReplicaDescriptor Addr)
  of_parts (p ∷ a ∷ g ∷ rest) =
      described (parse_nat u128_max p) (addr.parse a) (parse_int i64_magnitude g) (parse_final rest)
  of_parts (p ∷ a ∷ []) = none
  of_parts (p ∷ []) = none
  of_parts [] = none

  unfoldable pub from_str : Text → Option (ReplicaDescriptor Addr)
  from_str value = of_parts (split_on comma (after_last slash value))

  -- What the source relies on in the texts of addresses.
  pub record IsAddrText : Type 0 where
    pub parse-print : (a : Addr) → addr.parse (addr.print a) ≡ some a
    pub no_comma : (a : Addr) → IsFree comma (addr.print a)
    pub no_slash : (a : Addr) → IsFree slash (addr.print a)

-- A value of the type `i64`.
abbrev pub IsI64 : Counter → Type 0
IsI64 c = (pos_part c ≤ i64_magnitude) × (neg_part c ≤ suc i64_magnitude)

abbrev pub IsFinal : Option Counter → Type 0
IsFinal none = Unit
IsFinal (some c) = IsI64 c

-- The fields are values of their machine types.
pub record IsWf {Addr : Type 0} (d : ReplicaDescriptor Addr) : Type 0 where
  pub pid : d.pid ≤ u128_max
  pub gc : IsI64 d.gc_counter
  pub final : IsFinal d.final_counter

IsFree-cons : (c d : ℕ) (text : Text) → d ≢ c → IsFree c text → IsFree c (d ∷ text)
unfolding Set.contains
IsFree-cons c d text n h = ground arith

print_final-IsFree : (f : Option Counter) → IsFree slash (print_final f)
unfolding Set.contains
print_final-IsFree none = refl
print_final-IsFree (some c) =
    IsFree-cons slash comma (print_int c) (omega arith)
      (print_int-IsFree slash c refl (omega arith))

parse_int-i64 : (c : Counter) → IsI64 c → parse_int i64_magnitude (print_int c) ≡ some c
parse_int-i64 c h = parse_int-print_int i64_magnitude c (omega arith) h.0 h.1

parse_nat-u128 : (p : Pid) → p ≤ u128_max → parse_nat u128_max (print_nat p) ≡ some p
parse_nat-u128 p h = parse_nat-print_nat u128_max p (omega (arith, h)) h

module _ {Addr : Type 0} (addr : AddrText Addr) where
  display-IsFree : (d : ReplicaDescriptor Addr) → IsAddrText addr → IsFree slash (display addr d)
  unfolding display
  display-IsFree d w = IsFree-append slash (print_nat d.pid) _ (print_nat-IsFree slash d.pid refl) (
      IsFree-cons slash comma _ (omega arith) (
        IsFree-append slash (addr.print d.address) _ (w.no_slash d.address) (
          IsFree-cons slash comma _ (omega arith) (
            IsFree-append slash (print_int d.gc_counter) _
              (print_int-IsFree slash d.gc_counter refl (omega arith))
              (print_final-IsFree d.final_counter)))))

abbrev counters_text : Counter → Option Counter → List Text
counters_text g none = print_int g ∷ []
counters_text g (some c) = print_int g ∷ print_int c ∷ []

int_no_comma : (c : Counter) → IsFree comma (print_int c)
int_no_comma c = print_int-IsFree comma c refl (omega arith)

split_counters :
    (g : Counter) (f : Option Counter)
    → split_on comma (print_int g ++ print_final f) ≡ counters_text g f
split_counters g none =
    Split.split_on-free comma (print_int g ++ [])
      (IsFree-append comma (print_int g) [] (int_no_comma g) (Split.IsFree-nil comma))
    ∙ ap (λ t. t ∷ []) (append_nil (print_int g))
split_counters g (some c) =
    Split.split_on-append comma (print_int g) (print_int c) (int_no_comma g)
    ∙ ap (λ rest. print_int g ∷ rest) (Split.split_on-free comma (print_int c) (int_no_comma c))

module _ {Addr : Type 0} (addr : AddrText Addr) where
  split_display :
      (d : ReplicaDescriptor Addr)
      → IsAddrText addr
      → split_on comma (display addr d)
        ≡ print_nat d.pid ∷ addr.print d.address ∷ counters_text d.gc_counter d.final_counter
  unfolding display
  split_display d w =
      rw
        (
          Split.split_on-append comma (print_nat d.pid)
              (addr.print d.address
                ++ (comma ∷ (print_int d.gc_counter ++ print_final d.final_counter)))
              (print_nat-IsFree comma d.pid refl),
          Split.split_on-append comma (addr.print d.address)
              (print_int d.gc_counter ++ print_final d.final_counter) (w.no_comma d.address),
          split_counters d.gc_counter d.final_counter,
        )
        refl

  described-counters :
      (p : Pid) (a : Addr) (g : Counter) (f : Option Counter)
      → p ≤ u128_max
      → IsI64 g
      → IsFinal f
      → IsAddrText addr
      → of_parts addr (print_nat p ∷ addr.print a ∷ counters_text g f)
        ≡ some (record { pid = p; address = a; gc_counter = g; final_counter = f })
  described-counters p a g none hp hg hf w =
      rw (parse_nat-u128 p hp, w.parse-print a, parse_int-i64 g hg) refl
  described-counters p a g (some c) hp hg hf w =
      rw (parse_nat-u128 p hp, w.parse-print a, parse_int-i64 g hg, parse_int-i64 c hf, parse_final)
        refl

  -- A descriptor whose fields are values of their machine types is read back from the path of its
  -- object, if addresses are read back from their texts, which have no comma and no slash.
  pub from_str-object_path :
      (directory : Text) (d : ReplicaDescriptor Addr)
      → IsAddrText addr
      → IsWf d
      → from_str addr (object_path addr directory d) ≡ some d
  unfolding object_path from_str
  from_str-object_path directory d w v =
      rw
        (
          Split.after_last-append slash (trim_end_matches is_slash directory) (display addr d)
              (display-IsFree addr d w),
          split_display d w,
          described-counters d.pid d.address d.gc_counter d.final_counter v.pid v.gc v.final w,
        )
        refl
