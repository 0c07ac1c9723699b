-- ===== src/Manager/Waiting.antt =====
-- The loops of comnetsemu/net.py that wait for Docker: how many rounds are enough.
use comnetsemu.Prelude.{
  ℕ, zero, suc, ◌<◌, String, Bool, true, false, none, some, ◌≡◌, refl, ap, arith, inl, inr,
  Option-cases, string_eq,
}
use comnetsemu.Prelude.Dict.{lookup}
use comnetsemu.Manager.Data.{AppContainer, ok}
use comnetsemu.Manager.Docker.{Docker}
use comnetsemu.Manager.State.{Manager}
use comnetsemu.Manager.Container.{wait_container_removed, remove_container, unregister}
use comnetsemu.Manager.Synced.{IsSynced, unregister_lem}
use comnetsemu.Manager.Lifecycle.{Unchanged-IsSynced}

module _ {I W : Type 0} (d : Docker I W) where
  -- The world after `n` rounds of looking for a container and then a pause.
  abbrev pub polled : ℕ → String → W → W
  polled zero name w = w
  polled (suc n) name w = polled n name (d.pause (d.get name w).1)

  -- The container is not found any more after `n` rounds, as Docker's API shows it once its removal is over.
  abbrev pub IsGoneAfter : ℕ → String → W → Type 0
  IsGoneAfter n name w = (d.get name (polled n name w)).0 ≡ none

  -- If the container is gone after `n` rounds, then any fuel above `n` is enough for `_waitContainerRemoved` to
  -- come to its end.
  pub wait_container_removed_done :
      (n fuel : ℕ) (name : String) (w : W)
      → IsGoneAfter n name w
      → n < fuel
      → (wait_container_removed d fuel name w).0 ≡ ok tt
  unfolding wait_container_removed
  wait_container_removed_done n zero name w gone more = absurd (omega arith)
  wait_container_removed_done zero (suc fuel) name w gone more =
      let unseen : (d.get name w).0 ≡ none = gone in rw (wait_container_removed, unseen) refl
  wait_container_removed_done (suc n) (suc fuel) name w gone more =
      elim (Option-cases (d.get name w).0) [
        | inl none_yet ↦ rw (wait_container_removed, none_yet) refl
        | inr (i, found) ↦
            rw (wait_container_removed, found)
              (wait_container_removed_done n fuel name (d.pause (d.get name w).1) gone
                (omega arith))
      ]

  unregister_done :
      (name : String) (c : AppContainer I) (s : Manager I W) (w : W)
      → IsSynced s
      → lookup name s.by_name ≡ some c
      → (unregister c name (record s { world = w })).0 ≡ ok tt
  unregister_done name c s w h e =
      let s' : Manager I W = record s { world = w } in
      ap (λ r. r.0)
        (unregister_lem name c s'
          (Unchanged-IsSynced s s' h
            (record { queue = refl; by_name = refl; appcontainers = refl; next_oid = refl }))
          e)

  -- If the name is known, Docker accepts the removal and the container is then gone after `n` rounds, then
  -- `removeContainer` comes to its end without an exception, with any fuel above `n`.
  pub remove_container_done :
      (n fuel : ℕ) (name : String) (wait : Bool) (s : Manager I W) (c : AppContainer I)
      → IsSynced s
      → lookup name s.by_name ≡ some c
      → (d.remove c.dins s.world).0 ≡ ok tt
      → IsGoneAfter n c.name (d.remove c.dins s.world).1
      → n < fuel
      → (remove_container d fuel name wait s).0 ≡ ok tt
  unfolding remove_container
  remove_container_done n fuel name false s c h e removed gone more =
      rw (e, removed) (unregister_done name c s (d.remove c.dins s.world).1 h e)
  remove_container_done n fuel name true s c h e removed gone more =
      let w1 = (d.remove c.dins s.world).1 in
      rw (e, removed, wait_container_removed_done n fuel c.name w1 gone more)
        (unregister_done name c s (wait_container_removed d fuel c.name w1).1 h e)
