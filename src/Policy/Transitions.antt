-- ===== src/Policy/Transitions.antt =====
-- Which hears of an object may follow one another: the validation of
-- sieve_perturbation_policies/common.py against a table.
use sieve.Prelude.{
  String, ◌≡◌, refl, Bool, true, false, Option, none, some, ok, err, assertion_error, if◌then◌else◌,
}
use sieve.Event.HearTypes
use sieve.Event.Types.{event_none_type}
use sieve.Policy.Detectable.{event_diff_validation_check}

pub data HearKind : Type 0 where
  adds updates deletes replaces syncs : HearKind

abbrev pub text_of : HearKind → String
text_of adds = HearTypes.added
text_of updates = HearTypes.updated
text_of deletes = HearTypes.deleted
text_of replaces = HearTypes.replaced
text_of syncs = HearTypes.sync

-- The type of the hear before, if there is one.
abbrev pub previous : Option HearKind → String
previous none = event_none_type
previous (some k) = text_of k

-- A first hear may be of any kind, an object is added only where it is not there, and a deletion is
-- followed by nothing but an addition or an update.
abbrev pub may_follow : Option HearKind → HearKind → Bool
may_follow none k = true
may_follow (some deletes) adds = true
may_follow (some deletes) updates = true
may_follow (some deletes) deletes = false
may_follow (some deletes) replaces = false
may_follow (some deletes) syncs = false
may_follow (some k) adds = false
may_follow (some k) updates = true
may_follow (some k) deletes = true
may_follow (some k) replaces = true
may_follow (some k) syncs = true

-- For every type that a hear and the hear before can have, the first of an object included, the
-- validation passes exactly where the one may follow the other, and fails an assertion elsewhere.
pub event_diff_validation_check-may_follow :
    (prev : Option HearKind) (cur : HearKind)
    → event_diff_validation_check (previous prev) (text_of cur)
      ≡ (if may_follow prev cur then ok tt else err assertion_error)
unfolding event_diff_validation_check
event_diff_validation_check-may_follow none adds = refl
event_diff_validation_check-may_follow none updates = refl
event_diff_validation_check-may_follow none deletes = refl
event_diff_validation_check-may_follow none replaces = refl
event_diff_validation_check-may_follow none syncs = refl
event_diff_validation_check-may_follow (some adds) adds = refl
event_diff_validation_check-may_follow (some adds) updates = refl
event_diff_validation_check-may_follow (some adds) deletes = refl
event_diff_validation_check-may_follow (some adds) replaces = refl
event_diff_validation_check-may_follow (some adds) syncs = refl
event_diff_validation_check-may_follow (some updates) adds = refl
event_diff_validation_check-may_follow (some updates) updates = refl
event_diff_validation_check-may_follow (some updates) deletes = refl
event_diff_validation_check-may_follow (some updates) replaces = refl
event_diff_validation_check-may_follow (some updates) syncs = refl
event_diff_validation_check-may_follow (some deletes) adds = refl
event_diff_validation_check-may_follow (some deletes) updates = refl
event_diff_validation_check-may_follow (some deletes) deletes = refl
event_diff_validation_check-may_follow (some deletes) replaces = refl
event_diff_validation_check-may_follow (some deletes) syncs = refl
event_diff_validation_check-may_follow (some replaces) adds = refl
event_diff_validation_check-may_follow (some replaces) updates = refl
event_diff_validation_check-may_follow (some replaces) deletes = refl
event_diff_validation_check-may_follow (some replaces) replaces = refl
event_diff_validation_check-may_follow (some replaces) syncs = refl
event_diff_validation_check-may_follow (some syncs) adds = refl
event_diff_validation_check-may_follow (some syncs) updates = refl
event_diff_validation_check-may_follow (some syncs) deletes = refl
event_diff_validation_check-may_follow (some syncs) replaces = refl
event_diff_validation_check-may_follow (some syncs) syncs = refl
