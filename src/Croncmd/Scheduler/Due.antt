-- ===== src/Croncmd/Scheduler/Due.antt =====
-- examples/croncmd/scheduler.go: the fires of a schedule that a pass finds due, in their order.
use libp2p_kv_raft.Base.{
  ℕ, zero, suc, ◌≡◌, refl, ap, inl, inr, ltb, if◌then◌else◌, none, some, Option-cases, List, [],
  ◌∷◌, Bytes,
}
use libp2p_kv_raft.Croncmd.Spec.{Spec}
use libp2p_kv_raft.Croncmd.Schedule.{Schedule, Calendar, Json, fires_from, next_fire}
use libp2p_kv_raft.Croncmd.Scheduler.{Scheduler, claim_key}

module _ (K : Calendar) (J : Json) (S : Scheduler) where
  open K use {Location}

  -- The fires after a time, up to the present, and no more than `rounds`.
  unfoldable pub due : ℕ → Spec → Location → ℕ → ℕ → List ℕ
  due zero spec loc now cursor = []
  due (suc rounds) spec loc now cursor = elim (next_fire K spec loc cursor) [
    | none ↦ []
    | some at ↦ if ltb now at then [] else at ∷ due rounds spec loc now at
  ]

  abbrev pub key_of : Schedule → ℕ → Bytes
  key_of s at = claim_key K J S s.id at

-- The fires of a list that are not in the future.
unfoldable pub up_to : ℕ → List ℕ → List ℕ
up_to now [] = []
up_to now (at ∷ rest) = if ltb now at then [] else at ∷ up_to now rest

pub due-fires_from :
    (K : Calendar) (J : Json) (S : Scheduler) (rounds : ℕ) (spec : Spec) (loc : K.Location)
    (now cursor : ℕ)
    → due K J S rounds spec loc now cursor ≡ up_to now (fires_from K rounds spec loc cursor)
unfolding due up_to fires_from
due-fires_from K J S zero spec loc now cursor = refl
due-fires_from K J S (suc rounds) spec loc now cursor =
    elim (Option-cases (next_fire K spec loc cursor)) [
      | inl no_fire ↦ rw (no_fire, due, fires_from) refl
      | inr (at, found) ↦
          rw (found, due, fires_from)
            (ap (λ rest. if ltb now at then [] else at ∷ rest)
              (due-fires_from K J S rounds spec loc now at))
    ]
