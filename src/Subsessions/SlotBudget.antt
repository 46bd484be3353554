-- ===== src/Subsessions/SlotBudget.antt =====
-- src/robotsix_chat/subsessions/slot_budget.py: for each conversation a first-in-first-out queue of
-- the monitor requests that found no free slot. What a request holds does not matter here.
pub mod Fifo
use robotsix_chat.Base.{
  ℕ, String, Bool, Option, none, some, List, [], ◌∷◌, ◌++◌, length, leb, ltb, not, is_empty,
  if◌then◌else◌,
}
use robotsix_chat.Base.Dict.{Dict, get, put, remove, get_or}

pub record SlotBudget (A : Type 0) : Type 0 where
  pub budget : ℕ
  pub queue_max : ℕ
  pub queues : Dict (List A)

-- `enqueue` returns, or raises SlotBudgetQueueFullError.
pub data Enqueued (A : Type 0) : Type 0 where
  accepted : SlotBudget A → Enqueued A
  queue_full : Enqueued A

module _ {A : Type 0} where
  unfoldable pub enabled : SlotBudget A → Bool
  enabled b = ltb 0 b.budget

  unfoldable pub pending_count : String → SlotBudget A → ℕ
  pending_count owner b = length (get_or owner [] b.queues)

  abbrev owners_waiting : Dict (List A) → List String
  owners_waiting [] = []
  owners_waiting ((owner, queue) ∷ rest) =
      if is_empty queue then owners_waiting rest else owner ∷ owners_waiting rest

  unfoldable pub pending_owner_ids : SlotBudget A → List String
  pending_owner_ids b = owners_waiting b.queues

  unfoldable pub discard_pending : String → SlotBudget A → SlotBudget A
  discard_pending owner b = record b { queues = remove owner b.queues }

  unfoldable pub enqueue : String → A → SlotBudget A → Enqueued A
  unfolding pending_count
  enqueue owner request b =
      if leb b.queue_max (pending_count owner b)
      then queue_full
      else accepted
          (record b { queues = put owner (get_or owner [] b.queues ++ request ∷ []) b.queues })

  abbrev pub pop_from : String → List A → SlotBudget A → SlotBudget A × Option A
  pop_from owner [] b = (b, none)
  pop_from owner (request ∷ rest) b = (record b { queues = put owner rest b.queues }, some request)

  unfoldable pub pop_next : String → SlotBudget A → SlotBudget A × Option A
  pop_next owner b = pop_from owner (get_or owner [] b.queues) b

  unfoldable pub requeue_front : String → A → SlotBudget A → SlotBudget A
  requeue_front owner request b = record b {
    queues = put owner (request ∷ get_or owner [] b.queues) b.queues;
  }
