-- ===== src/Rectifier/Lock.antt =====
-- When the rectifier gives the lock of the deny list back.
use mathlib.Core.Path.{subst}
use pre_scaling_operator.Common.{
  true, List, [], ◌∷◌, Error, Result, ◌≡◌, ◌⊎◌, inl, inr, refl, sym, arith,
}
use pre_scaling_operator.Global.{ScalingInfo}
use pre_scaling_operator.ResourceMath.{Quantity}
use pre_scaling_operator.Quotas.{ResourceQuota}
use pre_scaling_operator.States.{Client}
use pre_scaling_operator.Rectifier.{
  Body, skips, Consumer, Rectifier, start, Step, send, close, end, leave, skip, touch, use_list,
  items_in_failure_state, rectify, Reach, here, next,
}

abbrev pub IsSkip : Body → Type 0
IsSkip (skips e) = Unit
IsSkip other = ⊥

module _ {Q : Type 0} (body : ScalingInfo Q → Body) where
  -- Some item before the last is not passed over with an error.
  abbrev pub HasBlocker : List (ScalingInfo Q) → Type 0
  HasBlocker [] = ⊥
  HasBlocker (item ∷ []) = ⊥
  HasBlocker (item ∷ (second ∷ items)) = (¬ IsSkip (body item)) ⊎ HasBlocker (second ∷ items)

  abbrev NonEmpty : List (ScalingInfo Q) → Type 0
  NonEmpty [] = ⊥
  NonEmpty (item ∷ items) = Unit

  abbrev Blocked : List (ScalingInfo Q) → Consumer Q → Type 0
  Blocked to_send Consumer.waiting = HasBlocker to_send
  Blocked to_send (Consumer.has item) = HasBlocker (item ∷ to_send)
  Blocked to_send (Consumer.wants_lock item) = NonEmpty to_send
  Blocked to_send (Consumer.left e) = NonEmpty to_send
  Blocked to_send Consumer.finished = ⊥

  abbrev Held : Rectifier Q → Type 0
  Held s = (s.locked ≡ true) × Blocked s.to_send s.consumer

  more_to_send :
      (item : ScalingInfo Q) (rest : List (ScalingInfo Q))
      → HasBlocker (item ∷ rest)
      → NonEmpty rest
  more_to_send item [] h = h
  more_to_send item (second ∷ rest) h = tt

  after_skip :
      (item : ScalingInfo Q) (rest : List (ScalingInfo Q)) (e : Error)
      → body item ≡ skips e
      → HasBlocker (item ∷ rest)
      → HasBlocker rest
  after_skip item [] e skipped h = absurd h
  after_skip item (second ∷ rest) e skipped (inl other) =
      absurd (other (subst IsSkip (sym skipped) tt))
  after_skip item (second ∷ rest) e skipped (inr more) = more

  none_to_send : (consumer : Consumer Q) → ¬ Blocked [] consumer
  none_to_send Consumer.waiting h = h
  none_to_send (Consumer.has item) h = h
  none_to_send (Consumer.wants_lock item) h = h
  none_to_send (Consumer.left e) h = h
  none_to_send Consumer.finished h = h

  Step-Held : (s t : Rectifier Q) → Step body s t → Held s → Held t
  Step-Held s t (send item rest before after) held =
      subst Held (sym after) (refl, (subst Held before held).1)
  Step-Held s t (close consumer before after) held =
      absurd (none_to_send consumer (subst Held before held).1)
  Step-Held s t (end before after) held = absurd (subst Held before held).1
  Step-Held s t (leave item e received exited after) (locked, blocked) =
      let blocker = subst (Blocked s.to_send) received blocked in
      subst Held (sym after) (locked, more_to_send item s.to_send blocker)
  Step-Held s t (skip item e received skipped after) (locked, blocked) =
      let blocker = subst (Blocked s.to_send) received blocked in
      subst Held (sym after) (locked, after_skip item s.to_send e skipped blocker)
  Step-Held s t (touch item received touched after) (locked, blocked) =
      let blocker = subst (Blocked s.to_send) received blocked in
      subst Held (sym after) (locked, more_to_send item s.to_send blocker)
  Step-Held s t (use_list item wanted free after) (locked, blocked) =
      absurd (subst (λ b. b ≡ true → ⊥) (sym free) (λ e. ground arith) locked)

  Reach-Held : (s t : Rectifier Q) → Reach body s t → Held s → Held t
  Reach-Held s _ here held = held
  Reach-Held s t (next {t = u} reached step) held = Step-Held u t step (Reach-Held s u reached held)

  keeps_lock :
      (items : List (ScalingInfo Q)) (s : Rectifier Q)
      → HasBlocker items
      → Reach body (start items) s
      → s.locked ≡ true
  keeps_lock items s blocker reached = (Reach-Held (start items) s reached (refl, blocker)).0

module _ (k : Quantity) (client : Client) (client_set : Result (Unit {0}))
    (listed : Result (List (ResourceQuota k.Q))) (denylist : List (ScalingInfo k.Q)) where
  open k use {Q}

  -- Where some failed item of the deny list before the last is not passed over with an error of its
  -- reconciliation, the goroutine that sends the failed items to the rectifier holds the lock of
  -- the deny list in every state that can be reached.
  pub rectifier_keeps_lock :
      (s : Rectifier Q)
      → HasBlocker (rectify k client client_set listed denylist) (items_in_failure_state denylist)
      → Reach
          (rectify k client client_set listed denylist)
          (start (items_in_failure_state denylist))
          s
      → s.locked ≡ true
  rectifier_keeps_lock s blocker reached =
      keeps_lock (rectify k client client_set listed denylist) (items_in_failure_state denylist) s
        blocker reached
