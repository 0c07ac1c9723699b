-- ===== src/Coding/Delivery.antt =====
-- The loop of app/network_coding_for_transport/decoder.py over the symbols that are not yet delivered, which
-- deletes from the list that it runs over.
use comnetsemu.Prelude.{
  get_elem?-at, IsNodup, ℕ, zero, suc, ◌+◌, ◌≤◌, Option, none, some, List, [], ◌∷◌, ◌++◌, Bool,
  true, false, length, get_elem?, if◌then◌else◌, nat_eq, ◌≡◌, ◌≢◌, refl, sym, ◌∙◌, arith, inl, inr,
  Bool-cases, All, All-append, length-append, get_elem?-append_right,
}
use mathlib.Core.List.{append_assoc}
use comnetsemu.Coding.Bytes.{Bytes, ◌>>=◌}
use comnetsemu.Coding.Header.{Ipv4, Udp, Metadata}
use comnetsemu.Coding.Fields.{>>=-eq_some}
use comnetsemu.Coding.Decoder.{Delivery, deliver, delete_first, deliver_all}

-- What is left of a list after the loop: behind each symbol that is delivered the next one is passed
-- over, decoded or not.
abbrev pub kept : (ℕ → Bool) → List ℕ → List ℕ
kept uncoded [] = []
kept uncoded (i ∷ []) = if uncoded i then [] else i ∷ []
kept uncoded (i ∷ j ∷ l) = if uncoded i then j ∷ kept uncoded l else i ∷ kept uncoded (j ∷ l)

-- No number of the second list stands in the first.
abbrev AreApart : List ℕ → List ℕ → Type 0
AreApart pre l = All (λ i. All (λ j. j ≢ i) pre) l

AreApart-snoc :
    (pre : List ℕ) (x : ℕ) (l : List ℕ)
    → AreApart pre l
    → All (λ i. x ≢ i) l
    → AreApart (pre ++ x ∷ []) l
AreApart-snoc pre x [] h k = tt
AreApart-snoc pre x (i ∷ l) h k =
    (All-append (λ j. j ≢ i) pre (x ∷ []) h.0 (k.0, tt), AreApart-snoc pre x l h.1 k.1)

delete_first-append :
    (i : ℕ) (pre l : List ℕ) → All (λ j. j ≢ i) pre → delete_first i (pre ++ i ∷ l) ≡ pre ++ l
unfolding delete_first
delete_first-append i [] l h = ground arith
delete_first-append i (j ∷ pre) l h = ground (arith, delete_first-append i pre l h.1)

module _ (uncoded : ℕ → Bool) (send : ℕ → Delivery → Option Delivery)
    (sends : (i : ℕ) (s s' : Delivery) → send i s ≡ some s' → s'.not_decoded ≡ s.not_decoded) where
  -- The loop past the end of the list.
  deliver_all-end :
      (rounds : ℕ) (at : ℕ) (s s' : Delivery)
      → get_elem? s.not_decoded at ≡ none
      → deliver_all rounds uncoded send at s ≡ some s'
      → s'.not_decoded ≡ s.not_decoded
  unfolding deliver_all
  deliver_all-end zero at s s' e h = ground arith
  deliver_all-end (suc rounds) at s s' e h = ground arith

  -- One round at a symbol that is not decoded, and one at a symbol that is delivered.
  round_pending :
      (rounds at i : ℕ) (s s' : Delivery)
      → get_elem? s.not_decoded at ≡ some i
      → uncoded i ≡ false
      → deliver_all (suc rounds) uncoded send at s ≡ some s'
      → deliver_all rounds uncoded send (at + 1) s ≡ some s'
  unfolding deliver_all
  round_pending rounds at i s s' e p h = ground arith

  round_ready :
      (rounds at i : ℕ) (s s' : Delivery)
      → get_elem? s.not_decoded at ≡ some i
      → uncoded i ≡ true
      → deliver_all (suc rounds) uncoded send at s ≡ some s'
      → (s1 : Delivery) × (s1.not_decoded ≡ delete_first i s.not_decoded)
        × (deliver_all rounds uncoded send (at + 1) s1 ≡ some s')
  unfolding deliver_all
  round_ready rounds at i s s' e p h =
      let s0 : Delivery = record s { not_decoded = delete_first i s.not_decoded } in
      let h' : (send i s0 >>= λ t. deliver_all rounds uncoded send (at + 1) t) ≡ some s' =
        ground arith in
      let (s1, h1, k1) = >>=-eq_some (send i s0) _ h' in (s1, sends i s0 s1 h1, k1)

  at_next :
      (rounds : ℕ) (pre : List ℕ) (x : ℕ) (s s' : Delivery)
      → deliver_all rounds uncoded send (length pre + 1) s ≡ some s'
      → deliver_all rounds uncoded send (length (pre ++ x ∷ [])) s ≡ some s'
  at_next rounds pre x s s' h = rw (length-append pre (x ∷ [])) h

  deliver_all-kept_from :
      (rounds : ℕ) (pre l : List ℕ) (s s' : Delivery)
      → s.not_decoded ≡ pre ++ l
      → length l ≤ rounds
      → AreApart pre l
      → IsNodup l
      → deliver_all rounds uncoded send (length pre) s ≡ some s'
      → s'.not_decoded ≡ pre ++ kept uncoded l
  deliver_all-kept_from rounds pre [] s s' e r a d h =
      deliver_all-end rounds (length pre) s s' (rw (e, get_elem?-at pre []) refl) h ∙ e
  deliver_all-kept_from zero pre (i ∷ l) s s' e r a d h = absurd (omega arith)
  deliver_all-kept_from (suc rounds) pre (i ∷ []) s s' e r a d h =
      let here : get_elem? s.not_decoded (length pre) ≡ some i =
        rw (e, get_elem?-at pre (i ∷ [])) refl in
      elim (Bool-cases (uncoded i)) [
        | inl ready ↦
            let (s1, e1, k1) = round_ready rounds (length pre) i s s' here ready h in
            let left : s1.not_decoded ≡ pre ++ [] = e1 ∙ rw e (delete_first-append i pre [] a.0) in
            rw ready (
              deliver_all-end rounds (length pre + 1) s1 s'
                (rw (left, get_elem?-append_right pre [] 1) refl) k1
              ∙ left)
        | inr pending ↦ rw pending (
            deliver_all-end rounds (length pre + 1) s s'
              (rw (e, get_elem?-append_right pre (i ∷ []) 1) refl)
              (round_pending rounds (length pre) i s s' here pending h)
            ∙ e)
      ]
  deliver_all-kept_from (suc rounds) pre (i ∷ j ∷ l) s s' e r a d h =
      let here : get_elem? s.not_decoded (length pre) ≡ some i =
        rw (e, get_elem?-at pre (i ∷ j ∷ l)) refl in
      elim (Bool-cases (uncoded i)) [
        | inl ready ↦
            let (s1, e1, k1) = round_ready rounds (length pre) i s s' here ready h in
            let left : s1.not_decoded ≡ (pre ++ j ∷ []) ++ l =
              e1
              ∙ rw e (delete_first-append i pre (j ∷ l) a.0)
              ∙ sym (append_assoc pre (j ∷ []) l) in
            rw ready (
              deliver_all-kept_from rounds (pre ++ j ∷ []) l s1 s' left (omega arith)
                (AreApart-snoc pre j l a.1.1 d.1.0) d.1.1 (at_next rounds pre j s1 s' k1)
              ∙ append_assoc pre (j ∷ []) (kept uncoded l))
        | inr pending ↦ rw pending (
            deliver_all-kept_from rounds (pre ++ i ∷ []) (j ∷ l) s s'
              (e ∙ sym (append_assoc pre (i ∷ []) (j ∷ l))) (omega arith)
              (AreApart-snoc pre i (j ∷ l) a.1 d.0) d.1
              (at_next rounds pre i s s' (round_pending rounds (length pre) i s s' here pending h))
            ∙ append_assoc pre (i ∷ []) (kept uncoded (j ∷ l)))
      ]

  deliver_all-kept_all :
      (s s' : Delivery)
      → IsNodup s.not_decoded
      → deliver_all (length s.not_decoded) uncoded send 0 s ≡ some s'
      → s'.not_decoded ≡ kept uncoded s.not_decoded
  deliver_all-kept_all s s' d h =
      deliver_all-kept_from (length s.not_decoded) [] s.not_decoded s s' refl (omega arith)
        (all_apart s.not_decoded) d h
    where
      all_apart : (l : List ℕ) → AreApart [] l
      all_apart [] = tt
      all_apart (i ∷ l) = (tt, all_apart l)

deliver-not_decoded :
    (ip : Ipv4) (udp : Udp) (md : Metadata) (decode_buf : Bytes) (i : ℕ) (s s' : Delivery)
    → deliver ip udp md decode_buf i s ≡ some s'
    → s'.not_decoded ≡ s.not_decoded
unfolding deliver
deliver-not_decoded ip udp md decode_buf i s s' h = ground arith

-- If the loop over the open symbols, none of which stands twice, ends without an exception, then what is left
-- open is the list without the symbols that it has delivered: behind each of these one symbol was passed
-- over, decoded or not.
pub deliver_all-kept :
    (ip : Ipv4) (udp : Udp) (md : Metadata) (decode_buf : Bytes) (uncoded : ℕ → Bool)
    (s s' : Delivery)
    → IsNodup s.not_decoded
    → deliver_all (length s.not_decoded) uncoded (deliver ip udp md decode_buf) 0 s ≡ some s'
    → s'.not_decoded ≡ kept uncoded s.not_decoded
deliver_all-kept ip udp md decode_buf uncoded s s' d h =
    deliver_all-kept_all uncoded (deliver ip udp md decode_buf)
      (deliver-not_decoded ip udp md decode_buf) s s' d h
