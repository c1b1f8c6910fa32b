-- ===== src/ParMap/Invariant.antt =====
-- src/par.rs: what holds between the steps of the threads.
use lbzip2_rs.Prelude.{
  ℕ, ◌≤◌, ◌<◌, ◌≡◌, refl, arith, ◌⊎◌, inl, inr, none, some, ◌==◌, Bool-cases, dec_lt,
}
use lbzip2_rs.ParMap.Threads.{
  running, stopped, Pool, spawn, Step, claim, store, Reach, start, later,
}

module _ {T : Type 0} (f : ℕ → T) (n threads : ℕ) where
  pub record Inv (s : Pool T) : Type 0 where
    pub right : (i : ℕ) (a : T) → s.slots i ≡ some a → a ≡ f i
    pub pending :
        (i : ℕ)
        → i < s.next
        → i < n
        → (s.slots i ≡ some (f i)) ⊎ ((w : ℕ) × (w < threads) × (s.pc w ≡ running i))
    pub ended : (w : ℕ) → s.pc w ≡ stopped → n ≤ s.next
    pub bounded : (w i : ℕ) → s.pc w ≡ running i → (i < s.next) × (i < n)
    pub unique : (v w i : ℕ) → s.pc v ≡ running i → s.pc w ≡ running i → v ≡ w
    pub ahead : (i : ℕ) → s.next ≤ i → s.slots i ≡ none
    pub once : (w i : ℕ) → s.pc w ≡ running i → s.slots i ≡ none

  spawn-Inv : Inv spawn
  spawn-Inv = record {
    right = λ i a e. cc;
    pending = λ i l u. absurd (omega arith);
    ended = λ w e. cc;
    bounded = λ w i e. cc;
    unique = λ v w i e e'. cc;
    ahead = λ i l. refl;
    once = λ w i e. cc;
  }

  Step-Inv : {s t : Pool T} → Step f n threads s t → Inv s → Inv t
  Step-Inv {s = s} (claim w lt here) inv = record {
    right = inv.right;
    pending = λ i l u. elim (dec_lt i s.next) [
      | yes old ↦ elim (inv.pending i old u) [
        | inl filled ↦ inl filled
        | inr (v, below, runs) ↦ inr (v, below, ground arith)
      ]
      | no new ↦ inr (w, lt, ground arith)
    ];
    ended = λ v e. ground (arith, inv.ended v);
    bounded = λ v i e. ground (arith, inv.bounded v i);
    unique = λ u v i e e'. ground (arith, inv.bounded u i, inv.bounded v i, inv.unique u v i);
    ahead = λ i l. inv.ahead i (omega arith);
    once = λ v i e. ground (arith, inv.once v i, inv.ahead i);
  }
  Step-Inv {s = s} (store w i lt here) inv = record {
    right = λ j a e. ground (arith, inv.right j a);
    pending = λ j l u. elim (Bool-cases (i == j)) [
      | inl same ↦ inl (ground arith)
      | inr other ↦ elim (inv.pending j l u) [
        | inl filled ↦ inl (ground arith)
        | inr (v, below, runs) ↦ inr (v, below, ground arith)
      ]
    ];
    ended = λ v e. ground (arith, inv.ended v);
    bounded = λ v j e. ground (arith, inv.bounded v j);
    unique = λ u v j e e'. ground (arith, inv.unique u v j);
    ahead = λ j l. ground (arith, inv.ahead j, inv.bounded w i);
    once = λ v j e. ground (arith, inv.once v j, inv.unique v w j);
  }

  pub Reach-Inv : {s : Pool T} → Reach f n threads s → Inv s
  Reach-Inv start = spawn-Inv
  Reach-Inv (later r st) = Step-Inv st (Reach-Inv r)
