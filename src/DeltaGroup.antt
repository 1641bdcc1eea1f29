-- ===== src/DeltaGroup.antt =====
-- `DeltaGroup` and `GcMarker` of src/crdt.rs: what replicas send each other.
use gresse.Prelude.{Option, List}
use gresse.Dots.{Pid, Dot}
use gresse.Dots.DotSet.{DotSet}

pub record DeltaGroup (D E : Type 0) : Type 0 where
  pub list : List D
  pub side_effects : Option E
  pub version_vector : DotSet

pub record GcMarker : Type 0 where
  pub marker : Dot
  pub stable : DotSet
  pub departed_pids : Option (List Pid)
