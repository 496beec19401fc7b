-- ===== src/Controller/Conditions.antt =====
-- Status conditions, `setCondition` of internal/controller/controller.go, and what a reconciler takes
-- from the cluster.
pub mod Laws
use kontxt.Base.{ℕ, String, List, [], ◌∷◌, if◌then◌else◌, ◌==◌, Eq_nat, Eq_string}
use kontxt.Crd.{Condition}

-- setCondition, at a time
unfoldable pub set_condition :
    ℕ → List Condition → String → String → String → String → List Condition
set_condition now [] cond_type status reason message =
    record {
      type_of = cond_type;
      status = status;
      reason = reason;
      message = message;
      last_transition_time = now;
    }
    ∷ []
set_condition now (c ∷ cs) cond_type status reason message =
    let rest = set_condition now cs cond_type status reason message in
    if c.type_of == cond_type
    then record c {
      status = status;
      reason = reason;
      message = message;
      last_transition_time = now;
    }
      ∷ cs
    else c ∷ rest

-- The answer of the API server to a Get.
pub data Fetched (T : Type 0) : Type 0 where
  found : T → Fetched T
  not_found : Fetched T
  get_failed : String → Fetched T

-- What one run of a reconciler does, in order: a status update, and a call of the publisher.
pub data Effect (T R : Type 0) : Type 0 where
  update_status : T → Effect T R
  publish : List R → Effect T R
