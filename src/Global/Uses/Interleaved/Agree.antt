-- ===== src/Global/Uses/Interleaved/Agree.antt =====
-- Whatever the schedule, two goroutines that speak of different workloads leave the same map.
use mathlib.Core.Quot.{Quot}
use mathlib.Core.Quot
use pre_scaling_operator.Common.{
  Text, ==_refl, Bool, true, false, Option, some, List, [], ◌∷◌, ◌++◌, ◌≡◌, ◌⊎◌, inl, inr, refl,
  sym, ap, ◌∙◌, arith,
}
use pre_scaling_operator.Global.{ScalingInfo}
use pre_scaling_operator.Global.Registry.{find, UniqueItems}
use pre_scaling_operator.Global.Uses.{Use, entry_after, run_uses, run_uses_lem}
use pre_scaling_operator.Global.Uses.Interleaved.{
  Task, before, appending, Pair, step_task, step_pair, run_schedule, start, Quiet, Apart,
  first_stepped, second_stepped,
}
use pre_scaling_operator.Global.Uses.Interleaved.Halves.{finally, Silent, Remembers, step_task_lem}

-- The deny list as a map: lists that have the same entry for every workload are equal.
abbrev pub SameEntries : {Q : Type 0} → List (ScalingInfo Q) → List (ScalingInfo Q) → Type 0
SameEntries xs ys = (name namespace : Text) → find name namespace xs ≡ find name namespace ys

abbrev pub Denymap : Type 0 → Type 0
Denymap Q = Quot (SameEntries {Q = Q})

module _ {Q : Type 0} where
  -- Each workload is silent in one of the tasks, and its entry will be what the other makes of it.
  abbrev Settled :
      (Text → Text → Option (ScalingInfo Q)) → Task Q → Task Q → List (ScalingInfo Q) → Type 0
  Settled entries a b items =
      (name namespace : Text)
      → (Silent name namespace a
          × (finally name namespace b (find name namespace items) ≡ entries name namespace))
        ⊎ (Silent name namespace b
            × (finally name namespace a (find name namespace items) ≡ entries name namespace))

  record Invariant (entries : Text → Text → Option (ScalingInfo Q)) (a b : Task Q)
      (items : List (ScalingInfo Q)) : Type 0 where
    unique : UniqueItems items
    first_remembers : Remembers a items
    second_remembers : Remembers b items
    settled : Settled entries a b items

  swapped :
      (entries : Text → Text → Option (ScalingInfo Q)) (a b : Task Q) (items : List (ScalingInfo Q))
      → Invariant entries a b items
      → Invariant entries b a items
  swapped entries a b items i = record {
    unique = i.unique;
    first_remembers = i.second_remembers;
    second_remembers = i.first_remembers;
    settled = λ name namespace. elim (i.settled name namespace) [ inl h ↦ inr h | inr h ↦ inl h ];
  }

  -- What a task remembers holds as long as only workloads change in which it is silent.
  Remembers-still :
      (task : Task Q) (items items' : List (ScalingInfo Q))
      → ((name namespace : Text)
          → (find name namespace items' ≡ find name namespace items) ⊎ Silent name namespace task)
      → Remembers task items
      → Remembers task items'
  Remembers-still (before uses) items items' h r = tt
  Remembers-still (appending found item uses) items items' h r = elim (h item.name item.namespace) [
    | inl same ↦ rw same r
    | inr silent ↦ absurd (ground (arith, silent.0, ==_refl item.name, ==_refl item.namespace))
  ]

  step_Invariant :
      (entries : Text → Text → Option (ScalingInfo Q)) (a b : Task Q) (items : List (ScalingInfo Q))
      → Invariant entries a b items
      → (a' : Task Q) × (items' : List (ScalingInfo Q)) × (step_task a items ≡ some (a', items'))
        × Invariant entries a' b items'
  step_Invariant entries a b items i =
      let (a', items', e, u, r, same) = step_task_lem a items i.unique i.first_remembers in
      (
        a',
        items',
        e,
        record {
          unique = u;
          first_remembers = r;
          second_remembers =
              Remembers-still b items items'
                (λ name namespace. elim (i.settled name namespace) [
                  | inl h ↦ inl (((same name namespace).1 (h.0)).1)
                  | inr h ↦ inr (h.0)
                ])
                i.second_remembers;
          settled = λ name namespace. elim (i.settled name namespace) [
            | inl h ↦
                let (silent, kept) = (same name namespace).1 (h.0) in
                inl (silent, ap (finally name namespace b) kept ∙ h.1)
            | inr h ↦ inr (h.0, (same name namespace).0 ∙ h.1)
          ];
        },
      )

  abbrev PairInvariant : (Text → Text → Option (ScalingInfo Q)) → Pair Q → Type 0
  PairInvariant entries p = Invariant entries p.first p.second p.denylist

  step_pair_lem :
      (entries : Text → Text → Option (ScalingInfo Q)) (turn : Bool) (p : Pair Q)
      → PairInvariant entries p
      → (p' : Pair Q) × (step_pair turn p ≡ some p') × PairInvariant entries p'
  unfolding step_pair
  step_pair_lem entries true p i =
      let (a, items, e, i') = step_Invariant entries p.first p.second p.denylist i in
      (record p { denylist = items; first = a }, rw (e, first_stepped) refl, i')
  step_pair_lem entries false p i =
      let (b, items, e, i') =
        step_Invariant entries p.second p.first p.denylist
          (swapped entries p.first p.second p.denylist i) in
      (
        record p { denylist = items; second = b },
        rw (e, second_stepped) refl,
        swapped entries b p.first items i',
      )

  run_schedule_lem :
      (entries : Text → Text → Option (ScalingInfo Q)) (turns : List Bool) (p : Pair Q)
      → PairInvariant entries p
      → (p' : Pair Q) × (run_schedule turns p ≡ some p') × PairInvariant entries p'
  unfolding run_schedule
  run_schedule_lem entries [] p i = (p, refl, i)
  run_schedule_lem entries (turn ∷ turns) p i =
      let (p1, e1, i1) = step_pair_lem entries turn p i in
      let (p2, e2, i2) = run_schedule_lem entries turns p1 i1 in (p2, rw (e1, run_schedule) e2, i2)

  entry_after-append :
      (name namespace : Text) (us vs : List (Use Q)) (o : Option (ScalingInfo Q))
      → entry_after name namespace (us ++ vs) o
        ≡ entry_after name namespace vs (entry_after name namespace us o)
  entry_after-append name namespace [] vs o = refl
  entry_after-append name namespace (use' ∷ us) vs o = entry_after-append name namespace us vs _

  entry_after-Quiet :
      (name namespace : Text) (us : List (Use Q)) (o : Option (ScalingInfo Q))
      → Quiet name namespace us
      → entry_after name namespace us o ≡ o
  entry_after-Quiet name namespace [] o q = refl
  entry_after-Quiet name namespace (use' ∷ us) o q =
      rw (q.0) (entry_after-Quiet name namespace us o (q.1))

  start-Invariant :
      (us vs : List (Use Q)) (items : List (ScalingInfo Q))
      → UniqueItems items
      → Apart us vs
      → PairInvariant
          (λ name namespace. entry_after name namespace (us ++ vs) (find name namespace items))
          (start us vs items)
  start-Invariant us vs items u apart = record {
    unique = u;
    first_remembers = tt;
    second_remembers = tt;
    settled = λ name namespace.
        let o = find name namespace items in
        elim (apart name namespace) [
          | inl q ↦ inl (
            q,
            ap (entry_after name namespace vs) (sym (entry_after-Quiet name namespace us o q))
                ∙ sym (entry_after-append name namespace us vs o),
          )
          | inr q ↦ inr (
            q,
            sym (entry_after-Quiet name namespace vs (entry_after name namespace us o) q)
                ∙ sym (entry_after-append name namespace us vs o),
          )
        ];
  }

  finished_entry :
      (entries : Text → Text → Option (ScalingInfo Q)) (a b : Task Q) (items : List (ScalingInfo Q))
      → a ≡ before []
      → b ≡ before []
      → Settled entries a b items
      → (name namespace : Text) → find name namespace items ≡ entries name namespace
  finished_entry entries a b items ea eb settled name namespace =
      let at_end = λ (task : Task Q). finally name namespace task (find name namespace items) in
      elim (settled name namespace) [
        | inl h ↦ sym (ap at_end eb) ∙ h.1
        | inr h ↦ sym (ap at_end ea) ∙ h.1
      ]

  -- Let two goroutines use a deny list with distinct keys, and no workload be the subject of uses of
  -- both. For every schedule in which no goroutine runs inside the loop of a method of the other, up to
  -- and with the loop's write for its last entry, but one may run between the loop and the append of an
  -- UpdateOrAppend of the other: there is no panic and the keys stay distinct; and once both are done,
  -- the deny list is the map that it would be had the uses of the first all been made before those of
  -- the second.
  pub interleavings_agree :
      (us vs : List (Use Q)) (items : List (ScalingInfo Q)) (turns : List Bool)
      → UniqueItems items
      → Apart us vs
      → (p : Pair Q) × (run_schedule turns (start us vs items) ≡ some p)
        × UniqueItems p.denylist
        × (p.first ≡ before []
            → p.second ≡ before []
            → (rest : List (ScalingInfo Q)) × (run_uses (us ++ vs) items ≡ some rest)
              × (◌≡◌ {A = Denymap Q} (Quot.mk p.denylist) (Quot.mk rest)))
  interleavings_agree us vs items turns u apart =
      let entries = λ (name namespace : Text).
        entry_after name namespace (us ++ vs) (find name namespace items) in
      let (p, e, i) =
        run_schedule_lem entries turns (start us vs items) (start-Invariant us vs items u apart) in
      let (rest, e', finds, u') = run_uses_lem (us ++ vs) items u in
      (
        p,
        e,
        i.unique,
        λ done1 done2. (
          rest,
          e',
          Quot.sound (λ name namespace.
              finished_entry entries p.first p.second p.denylist done1 done2 i.settled name
                namespace
              ∙ sym (finds name namespace)),
        ),
      )
