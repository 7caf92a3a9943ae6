-- ===== src/Pmp/Registry.antt =====
-- Which messages pass the registry, and what a retry keeps.
use mathlib.Core.Path.{subst}
use prdcp.Shared.{
  ◌+◌, String, ◌≡◌, ◌≢◌, refl, ◌↔◌, Bool, true, false, not, Option, none, some, List, arith, eq_iff,
  ◌==◌, text_eq, if◌then◌else◌, contains, contains_iff, Member, All, ok, Outcome, Outcome-cases,
  inl, inr, check, check_iff, check-ok_iff, ◌>>=◌, Passes,
}
use prdcp.Revision.Layers.{DateTime, is_naive}
use prdcp.Pmp.{
  PmpMessage, agent_ids, unknown_target, registry_guards, pmp_validate, message_guards,
  validate_message, with_retry,
}

pub record IsRegistered (registry : List String) (m : PmpMessage) : Type 0 where
  pub sender : Member m.sender_agent_id (agent_ids registry)
  pub receiver : Member m.receiver_agent_id (agent_ids registry)
  pub target : (t : String) → m.routing.revision_target ≡ some t → Member t (agent_ids registry)

Member-Passes : (xs : List String) (a : String) → (not (contains xs a) ≡ false) ↔ Member a xs
Member-Passes xs a = ground (arith, contains_iff xs a)

target-Passes :
    (registry : List String) (o : Option String)
    → (unknown_target registry o ≡ false)
      ↔ ((t : String) → o ≡ some t → Member t (agent_ids registry))
target-Passes registry none = (λ h t e. cc, λ h. refl)
target-Passes registry (some t) =
    let m = Member-Passes (agent_ids registry) t in
    (
      λ h s e. subst (λ u. Member u (agent_ids registry)) (some_eq t s e) (m.0 h),
      λ h. m.1 (h t refl),
    )
  where
    some_eq : (a b : String) → some a ≡ some b → a ≡ b
    some_eq a b e = cc

registry_guards_iff :
    (registry : List String) (m : PmpMessage)
    → All Passes (registry_guards registry m) ↔ IsRegistered registry m
unfolding registry_guards
registry_guards_iff registry m =
    let s = Member-Passes (agent_ids registry) m.sender_agent_id in
    let r = Member-Passes (agent_ids registry) m.receiver_agent_id in
    let t = target-Passes registry m.routing.revision_target in
    (
      λ (g0, (g1, (g2, _))). record { sender = s.0 g0; receiver = r.0 g1; target = t.0 g2 },
      λ v. (s.1 v.sender, (r.1 v.receiver, (t.1 v.target, tt))),
    )

-- A message passes, unchanged, exactly when its sender, its receiver and its revision target, if
-- it has one, are registered agents or the delivery endpoint.
pub pmp_validate_iff :
    (registry : List String) (m e : PmpMessage)
    → (pmp_validate registry m ≡ ok e) ↔ (IsRegistered registry m × (m ≡ e))
unfolding pmp_validate
pmp_validate_iff registry m e =
    let guards = check-ok_iff (registry_guards registry m) m e in
    let spec = registry_guards_iff registry m in
    (λ h. let (g, same) = guards.0 h in (spec.0 g, same), λ (s, same). guards.1 (spec.1 s, same))

-- What `with_retry` makes of a message.
abbrev pub retried : String → DateTime → String → PmpMessage → PmpMessage
retried new_id now note m = record m {
  message_id = new_id;
  parent_message_id = some m.message_id;
  metadata = record m.metadata {
    updated_at = now;
    retry_count = m.metadata.retry_count + 1;
    notes = if note == "" then m.metadata.notes else note;
  };
}

-- A retry of a valid message, under a new UUID and at a time with a timezone, always succeeds.
-- The new message names the old one as its parent, counts one retry more, and keeps the workflow,
-- the two agents and the payload.
pub with_retry_succeeds :
    (is_uuid : String → Bool) (new_id : String) (now : DateTime) (note : String) (m : PmpMessage)
    → validate_message is_uuid m ≡ ok m
    → is_uuid new_id ≡ true
    → new_id ≢ ""
    → is_naive now ≡ false
    → (r : PmpMessage) × (with_retry is_uuid new_id now note m ≡ ok r)
      × (r.message_id ≡ new_id)
      × (r.parent_message_id ≡ some m.message_id)
      × (r.metadata.retry_count ≡ m.metadata.retry_count + 1)
      × (r.workflow_id ≡ m.workflow_id)
      × (r.sender_agent_id ≡ m.sender_agent_id)
      × (r.receiver_agent_id ≡ m.receiver_agent_id)
      × (r.payload ≡ m.payload)
unfolding with_retry message_guards
with_retry_succeeds is_uuid new_id now note m valid uuid ne aware =
    let (g0, (g1, (g2, (g3, (g4, (g5, (g6, (g7, (g8, (g9, (g10, (g11, _)))))))))))) =
      ((check-ok_iff (message_guards is_uuid m) m m).0 valid).0 in
    let r = retried new_id now note m in
    (
      r,
      (check-ok_iff (message_guards is_uuid r) r r).1 (
        (
          g0,
          (
            ground (arith, eq_iff new_id ""),
            (g2, (ground arith, (g4, (ground arith, (g6, (g7, (g8, (g9, (aware, (g11, tt)))))))))),
          ),
        ),
        refl,
      ),
      refl,
      refl,
      refl,
      refl,
      refl,
      refl,
      refl,
    )

pub pmp_validate-bind_iff {ℓ} :
    {A : Type ℓ} (registry : List String) (m : PmpMessage) (k : PmpMessage → Outcome A) (b : A)
    → ((pmp_validate registry m >>= k) ≡ ok b) ↔ (IsRegistered registry m × (k m ≡ ok b))
unfolding pmp_validate
pmp_validate-bind_iff registry m k b = elim (Outcome-cases (check (registry_guards registry m))) [
  | inl c ↦
      let spec = registry_guards_iff registry m in
      let guards = check_iff (registry_guards registry m) in
      rw c (λ h. (spec.0 (guards.0 c), h), λ (s, h). h)
  | inr (e, c) ↦
      let spec = registry_guards_iff registry m in
      let guards = check_iff (registry_guards registry m) in
      rw c (λ h. cc, λ (s, h). cc (c, guards.1 (spec.1 s)))
]
