-- ===== src/Rectifier/Ends.antt =====
-- When the rectifier comes to its end.
use mathlib.Core.Path.{subst}
use pre_scaling_operator.Common.{
  Bool, true, false, List, [], ◌∷◌, Error, Result, ◌≡◌, ◌⊎◌, ◌↔◌, inl, inr, refl, sym,
}
use pre_scaling_operator.Global.{ScalingInfo}
use pre_scaling_operator.ResourceMath.{Quantity}
use pre_scaling_operator.Quotas.{ResourceQuota}
use pre_scaling_operator.States.{Client}
use pre_scaling_operator.Rectifier.Lock.{IsSkip}
use pre_scaling_operator.Rectifier.{
  Body, exits, skips, touches, panics, Consumer, Rectifier, start, Step, send, close, end, leave,
  skip, touch, use_list, items_in_failure_state, rectify, Reach, here, next,
}

abbrev pub NoPanic : Body → Type 0
NoPanic panics = ⊥
NoPanic other = Unit

-- The function has returned: its loop is over, or it was left with an error.
abbrev pub HasReturned : {Q : Type 0} → Consumer Q → Type 0
HasReturned Consumer.finished = Unit
HasReturned (Consumer.left e) = Unit
HasReturned other = ⊥

module _ {Q : Type 0} (body : ScalingInfo Q → Body) where
  -- All items but the last are passed over with an error, and the last does not panic.
  abbrev pub AllSkipToLast : List (ScalingInfo Q) → Type 0
  AllSkipToLast [] = Unit
  AllSkipToLast (item ∷ []) = NoPanic (body item)
  AllSkipToLast (item ∷ (second ∷ items)) = IsSkip (body item) × AllSkipToLast (second ∷ items)

  skip_error : (b : Body) → IsSkip b → (e : Error) × (b ≡ skips e)
  skip_error (skips e) h = (e, refl)
  skip_error (exits e) h = absurd h
  skip_error touches h = absurd h
  skip_error panics h = absurd h

  Reach-trans : {s t u : Rectifier Q} → Reach body s t → Reach body t u → Reach body s u
  Reach-trans r here = r
  Reach-trans r (next q step) = next (Reach-trans r q) step

  abbrev at : List (ScalingInfo Q) → Bool → Consumer Q → Rectifier Q
  at items locked consumer = record { to_send = items; locked = locked; consumer = consumer }

  skipped :
      (item : ScalingInfo Q) (rest : List (ScalingInfo Q))
      → IsSkip (body item)
      → Reach body (start (item ∷ rest)) (start rest)
  skipped item rest h =
      let (e, skips_item) = skip_error (body item) h in
      next (next here (send item rest refl refl)) (skip item e refl skips_item refl)

  ended : Reach body (start []) (at [] false Consumer.finished)
  ended = next (next here (close Consumer.waiting refl refl)) (end refl refl)

  touched :
      (item : ScalingInfo Q)
      → body item ≡ touches
      → Reach body (start (item ∷ [])) (at [] false Consumer.finished)
  touched item h =
      next
        (next
          (next (next (next here (send item [] refl refl)) (touch item refl h refl))
            (close (Consumer.wants_lock item) refl refl))
          (use_list item refl refl refl))
        (end refl refl)

  left_by :
      (item : ScalingInfo Q) (e : Error)
      → body item ≡ exits e
      → Reach body (start (item ∷ [])) (at [] false (Consumer.left e))
  left_by item e exited =
      next (next (next here (send item [] refl refl)) (leave item e refl exited refl))
        (close (Consumer.left e) refl refl)

  -- The function returns, and the lock is given back.
  abbrev pub Returns : List (ScalingInfo Q) → Type 0
  Returns items =
      (consumer : Consumer Q) × HasReturned consumer
      × Reach body (start items) (record { to_send = []; locked = false; consumer = consumer })

  last_item : (item : ScalingInfo Q) (b : Body) → body item ≡ b → NoPanic b → Returns (item ∷ [])
  last_item item (exits e) h calm = (Consumer.left e, tt, left_by item e h)
  last_item item (skips e) h calm =
      (Consumer.finished, tt, Reach-trans (skipped item [] (subst IsSkip (sym h) tt)) ended)
  last_item item touches h calm = (Consumer.finished, tt, touched item h)
  last_item item panics h calm = absurd calm

  returns : (items : List (ScalingInfo Q)) → AllSkipToLast items → Returns items
  returns [] h = (Consumer.finished, tt, ended)
  returns (item ∷ []) h = last_item item (body item) refl h
  returns (item ∷ (second ∷ items)) (passed, rest) =
      let (consumer, back, reached) = returns (second ∷ items) rest in
      (consumer, back, Reach-trans (skipped item (second ∷ items) passed) reached)

  -- The lock is held, or everything was sent.
  abbrev HeldOrSent : Rectifier Q → Type 0
  HeldOrSent s = (s.locked ≡ true) ⊎ (s.to_send ≡ [])

  Step-HeldOrSent : (s t : Rectifier Q) → Step body s t → HeldOrSent s → HeldOrSent t
  Step-HeldOrSent s t (send item rest before after) h = subst HeldOrSent (sym after) (inl refl)
  Step-HeldOrSent s t (close consumer before after) h = subst HeldOrSent (sym after) (inr refl)
  Step-HeldOrSent s t (end before after) h = subst HeldOrSent (sym after) (inr refl)
  Step-HeldOrSent s t (leave item e received exited after) h = subst HeldOrSent (sym after) h
  Step-HeldOrSent s t (skip item e received skipped after) h = subst HeldOrSent (sym after) h
  Step-HeldOrSent s t (touch item received touched after) h = subst HeldOrSent (sym after) h
  Step-HeldOrSent s t (use_list item wanted free after) h = subst HeldOrSent (sym after) h

  -- What is needed for the end to be reached.
  abbrev CanEnd : List (ScalingInfo Q) → Consumer Q → Type 0
  CanEnd to_send Consumer.waiting = AllSkipToLast to_send
  CanEnd to_send (Consumer.has item) = AllSkipToLast (item ∷ to_send)
  CanEnd to_send (Consumer.wants_lock item) = to_send ≡ []
  CanEnd to_send (Consumer.left e) = to_send ≡ []
  CanEnd to_send Consumer.finished = Unit

  abbrev StateCanEnd : Rectifier Q → Type 0
  StateCanEnd s = CanEnd s.to_send s.consumer

  skipped-CanEnd :
      (item : ScalingInfo Q) (rest : List (ScalingInfo Q))
      → IsSkip (body item)
      → AllSkipToLast rest
      → AllSkipToLast (item ∷ rest)
  skipped-CanEnd item [] passed all = calm (body item) passed
    where
      calm : (b : Body) → IsSkip b → NoPanic b
      calm (skips e) h = tt
      calm (exits e) h = tt
      calm touches h = tt
      calm panics h = h
  skipped-CanEnd item (second ∷ rest) passed all = (passed, all)

  free-sent : (s : Rectifier Q) → s.locked ≡ false → HeldOrSent s → s.to_send ≡ []
  free-sent s free (inl held) = cc
  free-sent s free (inr sent) = sent

  -- Backwards: where the end can be reached after a step, it could before.
  Step-StateCanEnd :
      (s t : Rectifier Q) → Step body s t → HeldOrSent s → StateCanEnd t → StateCanEnd s
  Step-StateCanEnd s t (send item rest before after) h c =
      subst StateCanEnd (sym before) (subst StateCanEnd after c)
  Step-StateCanEnd s t (close consumer before after) h c =
      subst StateCanEnd (sym before) (subst StateCanEnd after c)
  Step-StateCanEnd s t (end before after) h c = subst StateCanEnd (sym before) tt
  Step-StateCanEnd s t (leave item e received exited after) h c =
      let sent : s.to_send ≡ [] = subst StateCanEnd after c in
      subst (CanEnd s.to_send) (sym received)
        (subst (λ rest. AllSkipToLast (item ∷ rest)) (sym sent) (subst NoPanic (sym exited) tt))
  Step-StateCanEnd s t (skip item e received skipped after) h c =
      subst (CanEnd s.to_send) (sym received)
        (skipped-CanEnd item s.to_send (subst IsSkip (sym skipped) tt) (subst StateCanEnd after c))
  Step-StateCanEnd s t (touch item received touched after) h c =
      let sent : s.to_send ≡ [] = subst StateCanEnd after c in
      subst (CanEnd s.to_send) (sym received)
        (subst (λ rest. AllSkipToLast (item ∷ rest)) (sym sent) (subst NoPanic (sym touched) tt))
  Step-StateCanEnd s t (use_list item wanted free after) h c =
      subst (CanEnd s.to_send) (sym wanted) (free-sent s free h)

  returned-CanEnd : (consumer : Consumer Q) → HasReturned consumer → CanEnd [] consumer
  returned-CanEnd Consumer.finished back = tt
  returned-CanEnd (Consumer.left e) back = refl
  returned-CanEnd Consumer.waiting back = absurd back
  returned-CanEnd (Consumer.has item) back = absurd back
  returned-CanEnd (Consumer.wants_lock item) back = absurd back

  Reach-HeldOrSent : (s t : Rectifier Q) → Reach body s t → HeldOrSent s → HeldOrSent t
  Reach-HeldOrSent s _ here h = h
  Reach-HeldOrSent s t (next {t = u} reached step) h =
      Step-HeldOrSent u t step (Reach-HeldOrSent s u reached h)

  Reach-StateCanEnd :
      (s t : Rectifier Q) → Reach body s t → HeldOrSent s → StateCanEnd t → StateCanEnd s
  Reach-StateCanEnd s _ here h c = c
  Reach-StateCanEnd s t (next {t = u} reached step) h c =
      Reach-StateCanEnd s u reached h (Step-StateCanEnd u t step (Reach-HeldOrSent s u reached h) c)

module _ (k : Quantity) (client : Client) (client_set : Result (Unit {0}))
    (listed : Result (List (ResourceQuota k.Q))) (denylist : List (ScalingInfo k.Q)) where
  open k use {Q}

  -- RectifyScaleItemsInFailureState can return, at the end of its loop or with an error, with the lock
  -- given back, just if all failed items of the deny list but the last are passed over with an error of
  -- their reconciliation, and the body does not panic on the last.
  pub rectifier_finishes_iff :
      Returns (rectify k client client_set listed denylist) (items_in_failure_state denylist)
      ↔ AllSkipToLast
          (rectify k client client_set listed denylist)
          (items_in_failure_state denylist)
  rectifier_finishes_iff =
      let body = rectify k client client_set listed denylist in
      let failed = items_in_failure_state denylist in
      (
        (λ (consumer, back, reached).
            Reach-StateCanEnd body (start failed) _ reached (inl refl)
              (returned-CanEnd body consumer back)),
        returns body failed,
      )
