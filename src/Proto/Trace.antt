-- ===== src/Proto/Trace.antt =====
-- The trace of one run, crates/parity-proto/src/trace.rs, with the driver's greeting of
-- crates/parity-proto/src/command.rs.
pub mod Admission
use client_rust_test.Base.{
  Option, none, some, List, [], ◌∷◌, ◌++◌, Bool, true, false, if◌then◌else◌, Bytes, bytes_eq, any,
  text,
}
use client_rust_test.Proto.Json.{Json}
use client_rust_test.Proto.Class.{Class, inadmissible_reason}
use client_rust_test.Proto.Observation.{Observation}

pub record ClientId : Type 0 where
  pub name : Bytes
  pub version : Bytes
  pub replaced : Bool

pub record Hello : Type 0 where
  pub driver : Bytes
  pub protocol : Bytes
  pub client : ClientId
  pub features : List Bytes
  pub config : List Bytes

pub record RoleBinding : Type 0 where
  pub role : Bytes
  pub driver : Bytes
  pub hello : Hello

pub record Step : Type 0 where
  pub id : Bytes
  pub role : Bytes
  pub op : Bytes
  pub observation : Observation

pub record Trace : Type 0 where
  pub schema : Bytes
  pub scenario : Bytes
  pub run : Bytes
  pub provenance : Json
  pub roles : List RoleBinding
  pub prefix : Bytes
  pub steps : List Step

-- "step `{id}` ({op}): {why}"
abbrev pub reason_line : Step → Bytes → Bytes
reason_line s why = text "step `" ++ (s.id ++ (text "` (" ++ (s.op ++ (text "): " ++ why))))

abbrev pub add_reason : Step → Option Bytes → List Bytes → List Bytes
add_reason s none rest = rest
add_reason s (some why) rest = reason_line s why ∷ rest

-- `filter_map` over the steps
abbrev pub reasons : List Step → List Bytes
reasons [] = []
reasons (s ∷ steps) = add_reason s (inadmissible_reason s.observation.class) (reasons steps)

-- `Trace::inadmissible`
unfoldable pub inadmissible : Trace → List Bytes
inadmissible t = reasons t.steps

abbrev pub is_region_error : Class → Bool
is_region_error Class.region_error = true
is_region_error _ = false

unfoldable pub is_transient : Trace → Bool
is_transient t = any (λ (s : Step). is_region_error s.observation.class) t.steps

abbrev find_step : Bytes → List Step → Option Step
find_step id [] = none
find_step id (s ∷ steps) = if bytes_eq s.id id then some s else find_step id steps

-- `Trace::step`
unfoldable pub step : Trace → Bytes → Option Step
step t id = find_step id t.steps
