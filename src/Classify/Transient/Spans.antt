-- ===== src/Classify/Transient/Spans.antt =====
-- internal/classify/transient.go: what a burst is.
use censor_pulse_cli.Common.{
  string_key, All, All-append, Bool-cases, List, Memᴰ, [], arith, concat_map, if_lem, inl, inr, leb,
  length, refl, suc, true, zero, ℕ, ◌*◌, ◌++◌, ◌+◌, ◌-◌, ◌||◌, ◌∷◌, ◌≡◌, ◌≤◌,
}
use censor_pulse_cli.Client.Merge.{Runtime}
use censor_pulse_cli.Classify.Outages.{a_second}
use censor_pulse_cli.Classify.Transient.{
  Placed, bursts, is_burst, is_placed, ports_of, starts_at, transient_span, widest, within,
}

module _ (g : Runtime) where
  -- At least six attempts on at least three ports, which all start within 20 seconds of the first one.
  pub record IsBurst (win : List (Placed g)) : Type 0 where
    pub enough : 6 ≤ length win
    pub ports : 3 ≤ length (ports_of g win)
    pub together : All (λ p. p.1.started_at ≤ starts_at g win + 20 * a_second) win

  within-together :
      (t : ℕ) (ps : List (Placed g)) → All (λ p. p.1.started_at ≤ t + 20 * a_second) (within g t ps)
  unfolding within
  within-together t [] = tt
  within-together t (p ∷ ps) =
      if_lem (All (λ q. q.1.started_at ≤ t + 20 * a_second))
        (leb (p.1.started_at - t) transient_span) (p ∷ within g t ps) []
        (λ h. (ground (arith, h), within-together t ps)) (λ _. tt)

  widest-IsBurst :
      (p : Placed g) (ps : List (Placed g))
      → is_burst g (widest g p ps) ≡ true
      → IsBurst (widest g p ps)
  unfolding is_burst starts_at
  widest-IsBurst p ps h = record {
    enough = ground (arith, h);
    ports = ground (arith, h);
    together = (omega arith, within-together p.1.started_at ps);
  }

  pub bursts-IsBurst : (taken : ℕ) (ps : List (Placed g)) → All IsBurst (bursts g taken ps)
  unfolding bursts
  bursts-IsBurst taken [] = tt
  bursts-IsBurst (suc taken) (p ∷ ps) = bursts-IsBurst taken ps
  bursts-IsBurst zero (p ∷ ps) =
      All-append IsBurst _ _
        (if_lem (All IsBurst) (is_burst g (widest g p ps)) (widest g p ps ∷ []) []
          (λ t. (widest-IsBurst p ps t, tt)) (λ _. tt))
        (bursts-IsBurst _ ps)

  -- A place in one of some lists that is a burst.
  pub record IsInBurst (wins : List (List (Placed g))) (i : ℕ) : Type 0 where
    pub win : List (Placed g)
    pub in_wins : Memᴰ win wins
    pub placed : is_placed g i win ≡ true
    pub burst : IsBurst win

  is_placed_append :
      (i : ℕ) (ps qs : List (Placed g))
      → is_placed g i (ps ++ qs) ≡ (is_placed g i ps || is_placed g i qs)
  is_placed_append i [] qs = ground arith
  is_placed_append i (p ∷ ps) qs = ground (arith, is_placed_append i ps qs)

  pub concat-IsInBurst :
      (wins : List (List (Placed g))) (i : ℕ)
      → All IsBurst wins
      → is_placed g i (concat_map (λ w. w) wins) ≡ true
      → IsInBurst wins i
  concat-IsInBurst [] i h t = absurd (ground (arith, t))
  concat-IsInBurst (w ∷ wins) i h t = elim (Bool-cases (is_placed g i w)) [
    | inl u ↦ record { win = w; in_wins = Memᴰ.head refl; placed = u; burst = h.0 }
    | inr u ↦
        let later =
          concat-IsInBurst wins i h.1
            (ground (arith, t, u, is_placed_append i w (concat_map (λ w. w) wins))) in
        record {
          win = later.win;
          in_wins = Memᴰ.tail later.in_wins;
          placed = later.placed;
          burst = later.burst;
        }
  ]
