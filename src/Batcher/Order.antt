-- ===== src/Batcher/Order.antt =====
-- The batches of batcher.rs hold the items in the order of the input, each once.
use daqingest.Base.{
  ℕ, ◌≡◌, refl, sym, ap, ◌∙◌, Bool, List, [], ◌∷◌, ◌++◌, append-nil, append_assoc, Bool-cases, inl,
  inr, length, leb, arith,
}
use daqingest.Batcher.{Received, item, no_more_input, elapsed, Batcher, emit, receive, batch}

module _ {ℓ} {A : Type ℓ} where
  abbrev pub concat : List (List A) → List A
  concat [] = []
  concat (b ∷ bs) = b ++ concat bs

  -- the items that come before the end of the input
  abbrev pub items : List (Bool × Received A) → List A
  items [] = []
  items ((_, item x) ∷ rs) = x ∷ items rs
  items ((_, no_more_input) ∷ rs) = []
  items ((_, elapsed) ∷ rs) = items rs

  -- what the task has of the input
  abbrev pub held : Batcher A → List A
  held s = concat s.sent ++ s.all

  concat-append : (bs cs : List (List A)) → concat (bs ++ cs) ≡ concat bs ++ concat cs
  concat-append [] cs = refl
  concat-append (b ∷ bs) cs =
      ap (λ r. b ++ r) (concat-append bs cs) ∙ sym (append_assoc b (concat bs) (concat cs))

  held-emit : (accepted : Bool) (s : Batcher A) → held (emit accepted s) ≡ held s
  unfolding emit
  held-emit accepted s = elim (Bool-cases s.do_emit) [
    | inr idle ↦ rw idle
    | inl full ↦ elim (Bool-cases accepted) [
      | inr refused ↦ rw (full, refused)
      | inl taken ↦
          rw (full, taken)
            (append-nil (concat (s.sent ++ (s.all ∷ [])))
              ∙ concat-append s.sent (s.all ∷ [])
              ∙ ap (λ r. concat s.sent ++ r) (append-nil s.all))
    ]
  ]

  module _ (batch_limit : ℕ) where
    held-item : (x : A) (s : Batcher A) → held (receive batch_limit (item x) s) ≡ held s ++ (x ∷ [])
    unfolding receive
    held-item x s = elim (Bool-cases (leb batch_limit (length (s.all ++ (x ∷ []))))) [
      | inl full ↦ rw full (sym (append_assoc (concat s.sent) s.all (x ∷ [])))
      | inr less ↦ rw less (sym (append_assoc (concat s.sent) s.all (x ∷ [])))
    ]

    held-elapsed : (s : Batcher A) → held (receive batch_limit elapsed s) ≡ held s
    unfolding receive
    held-elapsed s = ground arith

    -- At every time the batches sent, and the batch that is being filled, hold exactly the items
    -- received so far in their order, whether or not the output channel takes the batches.
    pub batch-items :
        (rs : List (Bool × Received A)) (s : Batcher A)
        → held (batch batch_limit rs s) ≡ held s ++ items rs
    unfolding batch
    batch-items [] s = sym (append-nil (held s))
    batch-items ((accepted, no_more_input) ∷ rs) s =
        held-emit accepted s ∙ sym (append-nil (held s))
    batch-items ((accepted, item x) ∷ rs) s =
        batch-items rs (receive batch_limit (item x) (emit accepted s))
        ∙ ap (λ h. h ++ items rs)
            (held-item x (emit accepted s) ∙ ap (λ h. h ++ (x ∷ [])) (held-emit accepted s))
        ∙ append_assoc (held s) (x ∷ []) (items rs)
    batch-items ((accepted, elapsed) ∷ rs) s =
        batch-items rs (receive batch_limit elapsed (emit accepted s))
        ∙ ap (λ h. h ++ items rs) (held-elapsed (emit accepted s) ∙ held-emit accepted s)
