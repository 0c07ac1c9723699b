-- ===== src/Routing/Ports.antt =====
-- `map_ports_to_path` of app/machine_learning_for_routing/controller/functions.py: the ports at which the
-- switches of a path take a packet in and send it on.
use comnetsemu.Prelude.{
  ℕ, some, List, [], ◌∷◌, nat_eq, All, ◌≡◌, ◌≢◌, refl, sym, ◌∙◌, IsNodup, beq_ne, beq_refl,
}
use comnetsemu.Prelude.Dict.{Dict, lookup, insert, lookup-insert}
use comnetsemu.Routing.Paths.{Links, entry, map_ports_from, map_ports_to_path}

module _ (data_map : Links) where
  -- `data_map` has both ports of each link of the path.
  abbrev pub HasPorts : ℕ → List ℕ → Type 0
  HasPorts s1 [] = Unit
  HasPorts s1 (s2 ∷ path) =
      ((p : ℕ) × (entry data_map s1 s2 ≡ some p))
      × ((p : ℕ) × (entry data_map s2 s1 ≡ some p))
      × HasPorts s2 path

module _ (data_map : Links) (last_port : ℕ) where
  -- A packet that comes to `s1` at port `in_port` is sent along the path: each switch gives it out at its port to
  -- the next one, which takes it in at its own port of that link, and the last switch gives it out at
  -- `last_port`.
  abbrev pub Forwards : Dict ℕ (ℕ × ℕ) → ℕ → ℕ → List ℕ → Type 0
  Forwards p in_port s1 [] = lookup s1 p ≡ some (in_port, last_port)
  Forwards p in_port s1 (s2 ∷ path) =
      (out_port : ℕ) × (next_port : ℕ) × (entry data_map s1 s2 ≡ some out_port)
      × (entry data_map s2 s1 ≡ some next_port)
      × (lookup s1 p ≡ some (in_port, out_port))
      × Forwards p next_port s2 path

  -- What the loop does from a switch on, with what the dict has from the switches before.
  abbrev Continues : Dict ℕ (ℕ × ℕ) → ℕ → ℕ → List ℕ → Type 0
  Continues p0 in_port s1 path =
      (p : Dict ℕ (ℕ × ℕ)) × (map_ports_from data_map last_port in_port s1 path p0 ≡ some p)
      × Forwards p in_port s1 path
      × ((k : ℕ) → k ≢ s1 → All (λ t. k ≢ t) path → lookup k p ≡ lookup k p0)

  lookup-insert_other :
      (s k : ℕ) (v : ℕ × ℕ) (p : Dict ℕ (ℕ × ℕ)) → k ≢ s → lookup k (insert s v p) ≡ lookup k p
  lookup-insert_other s k v p ne = lookup-insert s k v p ∙ rw (beq_ne s k (λ e. ne (sym e))) refl

  lookup-insert_self : (s : ℕ) (v : ℕ × ℕ) (p : Dict ℕ (ℕ × ℕ)) → lookup s (insert s v p) ≡ some v
  lookup-insert_self s v p = lookup-insert s s v p ∙ rw (beq_refl s) refl

  map_ports_from-Continues :
      (path : List ℕ) (s1 in_port : ℕ) (p0 : Dict ℕ (ℕ × ℕ))
      → IsNodup (s1 ∷ path)
      → HasPorts data_map s1 path
      → Continues p0 in_port s1 path
  unfolding map_ports_from
  map_ports_from-Continues [] s1 in_port p0 d h = (
    insert s1 (in_port, last_port) p0,
    refl,
    lookup-insert_self s1 (in_port, last_port) p0,
    λ k ne _. lookup-insert_other s1 k (in_port, last_port) p0 ne,
  )
  map_ports_from-Continues (s2 ∷ path) s1 in_port p0 d ((out_port, e1), (next_port, e2), h) =
      let p1 = insert s1 (in_port, out_port) p0 in
      let (p, done, forwards, kept) = map_ports_from-Continues path s2 next_port p1 d.1 h in
      (
        p,
        rw (e1, e2) done,
        (
          out_port,
          next_port,
          e1,
          e2,
          kept s1 d.0.0 d.0.1 ∙ lookup-insert_self s1 (in_port, out_port) p0,
          forwards,
        ),
        λ k ne others.
            kept k others.0 others.1 ∙ lookup-insert_other s1 k (in_port, out_port) p0 ne,
      )

  -- On a path that has no switch twice and whose links have their ports, `map_ports_to_path` gives a dict along
  -- which a packet from `first_port` of the first switch is forwarded to `last_port` of the last.
  pub map_ports_to_path-Forwards :
      (s : ℕ) (path : List ℕ) (first_port : ℕ)
      → IsNodup (s ∷ path)
      → HasPorts data_map s path
      → (p : Dict ℕ (ℕ × ℕ)) × (map_ports_to_path data_map (s ∷ path) first_port last_port ≡ some p)
        × Forwards p first_port s path
  unfolding map_ports_to_path
  map_ports_to_path-Forwards s path first_port d h =
      let (p, done, forwards, kept) = map_ports_from-Continues path s first_port [] d h in
      (p, done, forwards)
