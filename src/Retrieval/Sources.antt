-- ===== src/Retrieval/Sources.antt =====
-- The sources of a context: one for each URL, in the order in which they were found, as many as the
-- caller asked for at most.
use mathlib.Core.Path.{subst}
use prdcp.Shared.{
  ℕ, suc, ◌+◌, ◌≤◌, ◌<◌, String, ◌≡◌, refl, ap, inl, inr, false, List, [], ◌∷◌, ◌++◌, map, arith,
  leb, length, length-append, contains, Member, Member-append, NoRepeat, NoRepeat-snoc, not-Member,
  text_eq, ok, check, Outcome-cases, Bool-cases,
}
use prdcp.Retrieval.Model.{
  SearchResult, RetrievedSource, source_guards, Digests, new_source, collect,
}

ok-inj : {A : Type 0} {a b : A} → ok a ≡ ok b → a ≡ b
ok-inj h = cc

-- The ranks are n, n + 1, and so on.
abbrev pub IsRanked : ℕ → List RetrievedSource → Type 0
IsRanked n [] = Unit
IsRanked n (s ∷ ss) = (s.rank ≡ n) × IsRanked (suc n) ss

abbrev pub urls : List RetrievedSource → List String
urls = map (λ s. s.url)

-- One source for each URL, ranked from 1, at most `max_results` of them.
abbrev pub IsSelection : ℕ → List RetrievedSource → Type 0
IsSelection max_results ss = NoRepeat (urls ss) × IsRanked 1 ss × (length ss ≤ max_results)

IsRanked-snoc :
    (n : ℕ) (ss : List RetrievedSource) (s : RetrievedSource)
    → IsRanked n ss
    → s.rank ≡ length ss + n
    → IsRanked n (ss ++ s ∷ [])
IsRanked-snoc n [] s h e = (omega arith, tt)
IsRanked-snoc n (x ∷ ss) s (e, h) r = (e, IsRanked-snoc (suc n) ss s h (omega arith))

urls-append : (xs ys : List RetrievedSource) → urls (xs ++ ys) ≡ urls xs ++ urls ys
urls-append [] ys = refl
urls-append (x ∷ xs) ys = ap (λ l. x.url ∷ l) (urls-append xs ys)

-- `seen` holds the URLs of the sources.
abbrev pub Tracks : List String → List RetrievedSource → Type 0
Tracks seen ss = (u : String) → Member u (urls ss) → Member u seen

module _ (d : Digests) (retrieval_id provider_id : String) (now max_results : ℕ) where
  added : List RetrievedSource → String → SearchResult → List RetrievedSource
  added ss query r = ss ++ new_source d retrieval_id provider_id now max_results ss query r ∷ []

  added-IsSelection :
      (seen : List String) (ss : List RetrievedSource) (query : String) (r : SearchResult)
      → IsSelection max_results ss
      → Tracks seen ss
      → length ss < max_results
      → contains seen r.url ≡ false
      → IsSelection max_results (added ss query r)
        × (length (added ss query r) ≡ length ss + 1)
        × Tracks (r.url ∷ seen) (added ss query r)
  unfolding added
  added-IsSelection seen ss query r (n, k, l) t short new =
      let s = new_source d retrieval_id provider_id now max_results ss query r in
      let len = length-append ss (s ∷ []) in
      (
        (
          rw (urls-append ss (s ∷ []))
              (NoRepeat-snoc (urls ss) r.url n (λ m. not-Member seen r.url new (t r.url m))),
          IsRanked-snoc 1 ss s k refl,
          omega (arith, len),
        ),
        len,
        λ u m.
            elim (Member-append u (urls ss) (urls (s ∷ [])) (rw (urls-append ss (s ∷ [])) at m)) [
              | inl old ↦ inr (t u old)
              | inr (inl e) ↦ inl e
              | inr (inr never) ↦ elim never [ ]
            ],
      )

  pub collect-IsSelection :
      (found : List (String × SearchResult)) (seen : List String) (ss out : List RetrievedSource)
      → IsSelection max_results ss
      → Tracks seen ss
      → length ss < max_results
      → collect d retrieval_id provider_id now max_results found seen ss ≡ ok out
      → IsSelection max_results out
  unfolding collect added
  collect-IsSelection [] seen ss out sel t short h = subst (IsSelection max_results) (ok-inj h) sel
  collect-IsSelection ((query, r) ∷ rest) seen ss out sel t short h =
      elim (Bool-cases (contains seen r.url)) [
        | inl old ↦ collect-IsSelection rest seen ss out sel t short (rw old at h)
        | inr new ↦
            let more = added ss query r in
            let s = new_source d retrieval_id provider_id now max_results ss query r in
            let (sel', len, t') = added-IsSelection seen ss query r sel t short new in
            let h1 = rw new at h in
            elim (Outcome-cases (check (source_guards s))) [
              | inr (e, bad) ↦ let h2 = rw bad at h1 in cc
              | inl good ↦
                  let h2 = rw good at h1 in
                  elim (Bool-cases (leb max_results (length more))) [
                    | inl full ↦
                        let h3 = rw full at h2 in subst (IsSelection max_results) (ok-inj h3) sel'
                    | inr room ↦
                        let h3 = rw room at h2 in
                        collect-IsSelection rest (r.url ∷ seen) more out sel' t' (ground arith) h3
                  ]
            ]
      ]
