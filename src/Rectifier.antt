-- ===== src/Rectifier.antt =====
-- internal/reconciler/reconciler_cron.go: RectifyScaleItemsInFailureState, and the goroutine of
-- IterOverItemsInFailureState in pkg/utils/global/concurrrent.go that hands it the failed items of the
-- deny list, whose lock it holds meanwhile.
pub mod Lock
pub mod Ends
use pre_scaling_operator.Common.{
  Bool, true, false, Option, none, some, List, [], ◌∷◌, if◌then◌else◌, Error, Result, ok, err, ◌≡◌,
}
use pre_scaling_operator.Global.{ScalingInfo, State}
use pre_scaling_operator.Api.{ClusterScalingState}
use pre_scaling_operator.ResourceMath.{Quantity}
use pre_scaling_operator.Quotas.{ResourceQuota}
use pre_scaling_operator.States.{
  Client, get_cluster_scaling_states, fetch_namespace_state, get_applied_state_and_class_on_item,
}
use pre_scaling_operator.Reconciler.{Outcome, returned, scales, reconcile_scaling_item}

-- What the body of the loop does with an item: it leaves the function, goes on after an error of
-- ReconcileScalingItem, or uses the deny list, to scale the item or to take it off the list.
pub data Body : Type 0 where
  exits : Error → Body
  skips : Error → Body
  touches : Body
  panics : Body

-- What IterOverItemsInFailureState sends.
unfoldable pub items_in_failure_state : {Q : Type 0} → List (ScalingInfo Q) → List (ScalingInfo Q)
items_in_failure_state [] = []
items_in_failure_state (value ∷ items) =
    let rest = items_in_failure_state items in if value.failure then value ∷ rest else rest

unfoldable pub body_of : {Q : Type 0} → Option (List (ScalingInfo Q) × Outcome Q) → Body
body_of none = panics
body_of (some (denylist, returned (some e))) = skips e
body_of (some (denylist, returned none)) = touches
body_of (some (denylist, scales item)) = touches

module _ (k : Quantity) (client : Client) (client_set : Result (Unit {0}))
    (listed : Result (List (ResourceQuota k.Q))) (denylist : List (ScalingInfo k.Q)) where
  open k use {Q}

  rectify_known :
      ScalingInfo Q → List State → Result State → Result (List ClusterScalingState) → Body
  unfolding body_of
  rectify_known item definitions (err e) css = exits e
  rectify_known item definitions (ok state) (err e) = exits e
  rectify_known item definitions (ok state) (ok css) = body_of (
      reconcile_scaling_item k client client_set listed
        (get_applied_state_and_class_on_item item state css definitions) denylist)

  rectify_defined : ScalingInfo Q → Result (List State) → Body
  unfolding rectify_known
  rectify_defined item (err e) = exits e
  rectify_defined item (ok definitions) =
      rectify_known item definitions (fetch_namespace_state client definitions item.namespace)
        client.cluster_scaling_states

  unfoldable pub rectify : ScalingInfo Q → Body
  unfolding rectify_defined
  rectify item = rectify_defined item (get_cluster_scaling_states client)

-- The loop that receives the items.
pub data Consumer (Q : Type 0) : Type 0 where
  waiting : Consumer Q
  has : ScalingInfo Q → Consumer Q  -- an item it received
  wants_lock : ScalingInfo Q → Consumer Q  -- to use the deny list
  left : Error → Consumer Q
  finished : Consumer Q

pub record Rectifier (Q : Type 0) : Type 0 where
  pub to_send : List (ScalingInfo Q)
  pub locked : Bool  -- by the goroutine that sends
  pub consumer : Consumer Q

abbrev pub start : {Q : Type 0} → List (ScalingInfo Q) → Rectifier Q
start items = record { to_send = items; locked = true; consumer = Consumer.waiting }

-- The channel has no buffer: an item is sent when the loop receives it. The lock is given back when
-- all items are sent.
pub data Step {Q : Type 0} (body : ScalingInfo Q → Body) (s t : Rectifier Q) : Type 0 where
  send :
      (item : ScalingInfo Q) (rest : List (ScalingInfo Q))
      → s ≡ record { to_send = item ∷ rest; locked = true; consumer = Consumer.waiting }
      → t ≡ record { to_send = rest; locked = true; consumer = Consumer.has item }
      → Step body s t
  close :
      (consumer : Consumer Q)
      → s ≡ record { to_send = []; locked = true; consumer = consumer }
      → t ≡ record { to_send = []; locked = false; consumer = consumer }
      → Step body s t
  end :
      s ≡ record { to_send = []; locked = false; consumer = Consumer.waiting }
      → t ≡ record { to_send = []; locked = false; consumer = Consumer.finished }
      → Step body s t
  leave :
      (item : ScalingInfo Q) (e : Error)
      → s.consumer ≡ Consumer.has item
      → body item ≡ exits e
      → t ≡ record s { consumer = Consumer.left e }
      → Step body s t
  skip :
      (item : ScalingInfo Q) (e : Error)
      → s.consumer ≡ Consumer.has item
      → body item ≡ skips e
      → t ≡ record s { consumer = Consumer.waiting }
      → Step body s t
  touch :
      (item : ScalingInfo Q)
      → s.consumer ≡ Consumer.has item
      → body item ≡ touches
      → t ≡ record s { consumer = Consumer.wants_lock item }
      → Step body s t
  -- The deny list is used, and its lock given back.
  use_list :
      (item : ScalingInfo Q)
      → s.consumer ≡ Consumer.wants_lock item
      → s.locked ≡ false
      → t ≡ record s { consumer = Consumer.waiting }
      → Step body s t

pub data Reach {Q : Type 0} (body : ScalingInfo Q → Body) (s : Rectifier Q)
    : Rectifier Q → Type 0 where
  here : Reach body s s
  next : {t u : Rectifier Q} → Reach body s t → Step body t u → Reach body s u
