-- ===== src/Global/Variables.antt =====
-- pkg/utils/global/concurrrent.go: the package variables behind GetDenyList and GetReconcileList. A
-- list is the address of the one that NewConcurrentSlice made.
use pre_scaling_operator.Common.{ℕ, suc, Option, none, some, ◌≡◌, ◌≢◌, arith}

pub record Variables : Type 0 where
  pub denylist : Option ℕ
  pub reconcile_list : Option ℕ
  pub next : ℕ  -- the address of the next list

-- It assigns the new list to `denylist`, whoever calls it.
unfoldable pub new_concurrent_slice : Variables → Variables × ℕ
new_concurrent_slice vars =
    (record vars { denylist = some vars.next; next = suc vars.next }, vars.next)

unfoldable pub get_deny_list : Variables → Variables × ℕ
unfolding new_concurrent_slice
get_deny_list vars = elim vars.denylist [
  | some list ↦ (vars, list)
  | none ↦
      let (vars', list) = new_concurrent_slice vars in (record vars' { denylist = some list }, list)
]

unfoldable pub get_reconcile_list : Variables → Variables × ℕ
unfolding new_concurrent_slice
get_reconcile_list vars = elim vars.reconcile_list [
  | some list ↦ (vars, list)
  | none ↦
      let (vars', list) = new_concurrent_slice vars in
      (record vars' { reconcile_list = some list }, list)
]

-- Without a call of GetReconcileList, all calls of GetDenyList give one list.
pub get_deny_list_stable :
    (vars : Variables)
    → let (vars', list) = get_deny_list vars in get_deny_list vars' ≡ (vars', list)
unfolding get_deny_list
get_deny_list_stable vars = ground arith

-- The first call of GetReconcileList replaces the deny list: from then on GetDenyList gives the
-- reconcile list, and not the list that it gave before, where that was made earlier.
pub get_reconcile_list-get_deny_list :
    (vars : Variables) (list : ℕ)
    → vars.reconcile_list ≡ none
    → vars.denylist ≡ some list
    → list ≢ vars.next
    → let (vars', made) = get_reconcile_list vars in
      (get_deny_list vars ≡ (vars, list)) × (get_deny_list vars' ≡ (vars', made)) × (made ≢ list)
unfolding get_deny_list get_reconcile_list
get_reconcile_list-get_deny_list vars list fresh given apart = ground arith
