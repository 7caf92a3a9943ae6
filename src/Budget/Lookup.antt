-- ===== src/Budget/Lookup.antt =====
-- `for_request` over a ledger: sorting the file names loses no slot and finds no other.
use prdcp.Shared.{
  String, ◌≡◌, ◌≢◌, sym, ◌∙◌, ap, ◌↔◌, ◌⊎◌, inl, inr, none, some, List, [], ◌∷◌, map, arith, eq_iff,
  ◌==◌, text_eq, nat_eq, find_first-some, find_first-none, Member, Member-map, Member-map_inv,
  All-intro, All-Member, NoRepeat, NoRepeat-map_inj, Bool-cases, Option-cases,
}
use prdcp.Revision.Control.{RevisionBudgetConsumption}
use prdcp.Budget.{
  Slot, holder_id, insert_slot, name_before, sorted_slots, list_consumptions, for_request,
}
use prdcp.Budget.Ledger.{Absent}

swap_iff : {P Q R S : Type 0} → (S ↔ (P ⊎ R)) → (Q ⊎ S) ↔ (P ⊎ (Q ⊎ R))
swap_iff e = (
  λ m. elim m [
    | inl q ↦ inr (inl q)
    | inr s ↦ elim (e.0 s) [ inl p ↦ inl p | inr r ↦ inr (inr r) ]
  ],
  λ m. elim m [ inl p ↦ inr (e.1 (inl p)) | inr (inl q) ↦ inl q | inr (inr r) ↦ inr (e.1 (inr r)) ],
)

Member-insert_slot :
    (a s : Slot) (ts : List Slot) → Member a (insert_slot s ts) ↔ ((s ≡ a) ⊎ Member a ts)
unfolding insert_slot
Member-insert_slot a s [] = (λ m. m, λ m. m)
Member-insert_slot a s (t ∷ ts) = elim (Bool-cases (name_before s t)) [
  | inl y ↦ rw y (λ m. m, λ m. m)
  | inr n ↦ rw n (swap_iff (Member-insert_slot a s ts))
]

Member-sorted_slots : (a : Slot) (ss : List Slot) → Member a (sorted_slots ss) ↔ Member a ss
unfolding sorted_slots
Member-sorted_slots a [] = (λ m. m, λ m. m)
Member-sorted_slots a (s ∷ ss) =
    let ih = Member-sorted_slots a ss in
    let inserted = Member-insert_slot a s (sorted_slots ss) in
    (
      λ m. elim (inserted.0 m) [ inl e ↦ inl e | inr n ↦ inr (ih.0 n) ],
      λ m. inserted.1 (elim m [ inl e ↦ inl e | inr n ↦ inr (ih.1 n) ]),
    )

-- `for_request` finds a slot of the request, if there is one.
pub for_request-some :
    (request : String) (ss : List Slot) (r : RevisionBudgetConsumption)
    → for_request request ss ≡ some r
    → (s : Slot) × Member s ss × (s.holder ≡ r) × (holder_id s ≡ request)
unfolding for_request
for_request-some request ss r h =
    let (m, t) =
      find_first-some (λ c. c.revision_request_id == request) (list_consumptions ss) r h in
    let (s, n, e) = Member-map_inv (λ t. t.holder) (sorted_slots ss) r m in
    (
      s,
      (Member-sorted_slots s ss).0 n,
      e,
      ap (λ c. c.revision_request_id) e ∙ (eq_iff r.revision_request_id request).0 t,
    )

pub for_request-none :
    (request : String) (ss : List Slot) → for_request request ss ≡ none → Absent request ss
unfolding for_request
for_request-none request ss h =
    All-intro (λ s. holder_id s ≢ request) ss
      λ s m e.
        let n = Member-map (λ t. t.holder) (sorted_slots ss) s ((Member-sorted_slots s ss).1 m) in
        let f =
          All-Member _ (list_consumptions ss) s.holder
            (find_first-none (λ c. c.revision_request_id == request) (list_consumptions ss) h) n in
        ground (arith, eq_iff (holder_id s) request, f, e)

-- In a ledger that slot is the only one.
pub for_request-Member :
    (request : String) (ss : List Slot) (s : Slot)
    → NoRepeat (map holder_id ss)
    → Member s ss
    → holder_id s ≡ request
    → for_request request ss ≡ some s.holder
for_request-Member request ss s once m e = elim (Option-cases (for_request request ss)) [
  | inl gone ↦
      absurd (All-Member (λ t. holder_id t ≢ request) ss s (for_request-none request ss gone) m e)
  | inr (r, there) ↦
      let (t, n, same, id) = for_request-some request ss r there in
      let s_eq_t = NoRepeat-map_inj holder_id ss s t once m n (e ∙ sym id) in
      there ∙ ap some (sym same ∙ ap (λ u. u.holder) (sym s_eq_t))
]
