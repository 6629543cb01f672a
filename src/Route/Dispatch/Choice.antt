-- ===== src/Route/Dispatch/Choice.antt =====
-- Which route phase 1 of `dispatch_with_info` chooses (core/include/katana/core/router.hpp).
use mathlib.Core.Path.{subst}
use visage_dvachevsky_tempre.Base.{
  ℕ, ◌≤◌, ◌<◌, ◌≡◌, refl, sym, ◌∙◌, ap, true, false, ◌&&◌, Option, none, some, List, [], ◌∷◌, ◌++◌,
  Bytes, All, All-append, if◌then◌else◌, arith, Bool-cases, inl, inr, append_assoc, append-nil,
}
use visage_dvachevsky_tempre.Http.Method.{Method}
use visage_dvachevsky_tempre.Route.Pattern.{specificity_score, match_segments}
use visage_dvachevsky_tempre.Route.Dispatch.{
  RouteEntry, Best, route_matches, candidate, is_better, find_best,
}

All-map {ℓ κ μ} :
    {A : Type ℓ} (P : A → Type κ) (Q : A → Type μ)
    → ((a : A) → P a → Q a)
    → (xs : List A) → All P xs
    → All Q xs
All-map P Q f [] h = tt
All-map P Q f (x ∷ xs) h = (f x h.0, All-map P Q f xs h.1)

module _ (m : Method) (parts : List Bytes) where
  abbrev pub Matches : RouteEntry → Type 0
  Matches e = route_matches m parts e ≡ true

  -- The route matches, every earlier one that does scores less, and no later one scores more.
  pub record IsChoice (routes : List RouteEntry) (b : Best) : Type 0 where
    pub before : List RouteEntry
    pub after : List RouteEntry
    pub at : routes ≡ before ++ b.route ∷ after
    pub matches : Matches b.route
    pub score : b.score ≡ specificity_score b.route.pattern
    pub params : b.params ≡ (match_segments b.route.pattern parts []).1
    pub earlier : All (λ e. Matches e → specificity_score e.pattern < b.score) before
    pub later : All (λ e. Matches e → specificity_score e.pattern ≤ b.score) after

  -- What phase 1 may return for the routes.
  abbrev pub IsChosen : List RouteEntry → Option Best → Type 0
  IsChosen routes none = All (λ e. route_matches m parts e ≡ false) routes
  IsChosen routes (some b) = IsChoice routes b

  abbrev step : RouteEntry → Option Best → Option Best
  step e best =
      if route_matches m parts e && is_better (candidate parts e) best
      then some (candidate parts e)
      else best

  below :
      (k : ℕ) (routes : List RouteEntry) (best : Option Best)
      → IsChosen routes best
      → elim best as (λ _. Type 0) [ none ↦ Unit {0} | some b ↦ b.score < k ]
      → All (λ e. Matches e → specificity_score e.pattern < k) routes
  below k routes none c h = All-map _ _ (λ e n y. ground (arith, n, y)) routes c
  below k routes (some b) c h = rw (c.at) (
      All-append _ c.before (b.route ∷ c.after)
        (All-map _ _ (λ e l y. omega (arith, l y)) c.before c.earlier)
        ((λ y. omega (arith, c.score)), All-map _ _ (λ e l y. omega (arith, l y)) c.after c.later))

  taken :
      (e : RouteEntry) (routes : List RouteEntry)
      → All (λ e'. Matches e' → specificity_score e'.pattern < specificity_score e.pattern) routes
      → Matches e
      → IsChoice (routes ++ e ∷ []) (candidate parts e)
  taken e routes l y = record {
    before = routes;
    after = [];
    at = refl;
    matches = y;
    score = refl;
    params = refl;
    earlier = l;
    later = tt;
  }

  kept :
      (e : RouteEntry) (routes : List RouteEntry) (b : Best)
      → IsChoice routes b
      → (Matches e → specificity_score e.pattern ≤ b.score)
      → IsChoice (routes ++ e ∷ []) b
  kept e routes b c l = record {
    before = c.before;
    after = c.after ++ e ∷ [];
    at = ap (λ rs. rs ++ e ∷ []) c.at ∙ append_assoc c.before (b.route ∷ c.after) (e ∷ []);
    matches = c.matches;
    score = c.score;
    params = c.params;
    earlier = c.earlier;
    later = All-append _ c.after (e ∷ []) c.later (l, tt);
  }

  step_keeps :
      (e : RouteEntry) (best : Option Best)
      → (route_matches m parts e && is_better (candidate parts e) best) ≡ false
      → step e best ≡ best
  step_keeps e best h = ground (arith, h)

  step_takes :
      (e : RouteEntry) (best : Option Best)
      → (route_matches m parts e && is_better (candidate parts e) best) ≡ true
      → step e best ≡ some (candidate parts e)
  step_takes e best h = ground (arith, h)

  step-IsChosen :
      (e : RouteEntry) (routes : List RouteEntry) (best : Option Best)
      → IsChosen routes best
      → IsChosen (routes ++ e ∷ []) (step e best)
  step-IsChosen e routes none c = elim (Bool-cases (route_matches m parts e)) [
    | inl y ↦
        let r : IsChosen (routes ++ e ∷ []) (some (candidate parts e)) =
          taken e routes (below (specificity_score e.pattern) routes none c tt) y in
        subst (IsChosen (routes ++ e ∷ [])) (sym (step_takes e none (ground (arith, y)))) r
    | inr n ↦
        let r : IsChosen (routes ++ e ∷ []) none = All-append _ routes (e ∷ []) c (n, tt) in
        subst (IsChosen (routes ++ e ∷ [])) (sym (step_keeps e none (ground (arith, n)))) r
  ]
  step-IsChosen e routes (some b) c =
      elim (Bool-cases (route_matches m parts e && is_better (candidate parts e) (some b))) [
        | inl y ↦
            let r : IsChosen (routes ++ e ∷ []) (some (candidate parts e)) =
              taken e routes
                (below (specificity_score e.pattern) routes (some b) c (ground (arith, y)))
                (ground (arith, y)) in
            subst (IsChosen (routes ++ e ∷ [])) (sym (step_takes e (some b) y)) r
        | inr n ↦
            let r : IsChosen (routes ++ e ∷ []) (some b) =
              kept e routes b c (λ y. ground (arith, n, y)) in
            subst (IsChosen (routes ++ e ∷ [])) (sym (step_keeps e (some b) n)) r
      ]

  find_best-IsChosen_from :
      (pre : List RouteEntry) (best : Option Best) (routes : List RouteEntry)
      → IsChosen pre best
      → IsChosen (pre ++ routes) (find_best m parts best routes)
  unfolding find_best
  find_best-IsChosen_from pre best [] c = rw (append-nil pre) c
  find_best-IsChosen_from pre best (e ∷ es) c =
      rw⁻¹ (append_assoc pre (e ∷ []) es)
        (find_best-IsChosen_from (pre ++ e ∷ []) (step e best) es (step-IsChosen e pre best c))

  -- Phase 1 returns nothing exactly if no route has the method and matches the parts; otherwise it
  -- returns one that does, with its score and parameters, and of those with the highest score it is
  -- the first.
  pub find_best-IsChosen :
      (routes : List RouteEntry) → IsChosen routes (find_best m parts none routes)
  find_best-IsChosen routes = find_best-IsChosen_from [] none routes tt
