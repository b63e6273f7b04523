-- ===== src/Server/Identity/Enrollments.antt =====
-- An enrollment token enrolls at most one agent, and a revoked one none.
use time_weaver.Prelude.{
  ℕ, ◌≡◌, refl, ap, ◌∙◌, Bool, true, false, ◌||◌, not, Option, none, some, String, List, [], ◌∷◌,
  ◌++◌, ◌==◌, text_comparable, nat_comparable, is_none, ok, error, arith, Bool-cases, Result-cases,
  inl, inr, returned-first, eq_iff,
}
use time_weaver.Server.Database.{find_by, update_where, find_by-update_where}
use time_weaver.Server.Identity.{
  enrollment_token_invalid, EnrollmentToken, IdentityStore, CredentialIssue, token_of,
  issue_enrollment, revoke_enrollment, usable_token, enrolled_device, replace_credential, is_usable,
  is_active, group_of,
}
use time_weaver.Server.Identity.Access.{enroll, rotate, mark_used, usable_id}
use time_weaver.Server.Identity.Steps.{Step, take_step, take_steps}
use time_weaver.Server.Identity.Credentials.{rotate-Rotated}

-- The token is used or revoked.
abbrev is_spent : EnrollmentToken → Bool
is_spent t = not (is_none t.used_at) || not (is_none t.revoked_at)

abbrev spent_row : Option EnrollmentToken → Bool
spent_row none = false
spent_row (some t) = is_spent t

-- The token of the digest is used or revoked.
abbrev pub is_spent_token : String → IdentityStore → Bool
is_spent_token digest s = spent_row (token_of digest s)

spent-mark_used :
    (digest id : String) (device now : ℕ) (ts : List EnrollmentToken)
    → spent_row (find_by (λ t. t.token_hash == digest) ts) ≡ true
    → spent_row (
        find_by
          (λ t. t.token_hash == digest)
          (update_where
            (usable_id id now)
            (λ t. record t { used_at = some now; used_by_device_id = some device })
            ts))
      ≡ true
unfolding find_by update_where
spent-mark_used digest id device now [] h = h
spent-mark_used digest id device now (t ∷ ts) h =
    ground (arith, h, spent-mark_used digest id device now ts)

spent-revoke :
    (digest id : String) (now : ℕ) (ts : List EnrollmentToken)
    → spent_row (find_by (λ t. t.token_hash == digest) ts) ≡ true
    → spent_row (
        find_by
          (λ t. t.token_hash == digest)
          (update_where (λ t. t.enrollment_id == id) (λ t. record t { revoked_at = some now }) ts))
      ≡ true
unfolding find_by update_where
spent-revoke digest id now [] h = h
spent-revoke digest id now (t ∷ ts) h = ground (arith, h, spent-revoke digest id now ts)

spent-append :
    (digest : String) (ts more : List EnrollmentToken)
    → spent_row (find_by (λ t. t.token_hash == digest) ts) ≡ true
    → spent_row (find_by (λ t. t.token_hash == digest) (ts ++ more)) ≡ true
unfolding find_by
spent-append digest [] more h = cc
spent-append digest (t ∷ ts) more h = ground (arith, h, spent-append digest ts more)

-- What enroll does when it returns: its token was usable, and the tokens are marked.
record Enrolled (digest : String) (now : ℕ) (s s' : IdentityStore) : Type 0 where
  token : EnrollmentToken
  device : ℕ
  stored : token_of digest s ≡ some token
  usable : is_usable token now ≡ true
  marked :
      s'.enrollments
      ≡ update_where
          (usable_id token.enrollment_id now)
          (λ t. record t { used_at = some now; used_by_device_id = some device })
          s.enrollments

usable_token-found :
    (digest name : String) (now : ℕ) (s : IdentityStore) (t : EnrollmentToken)
    → usable_token digest name now s ≡ ok t
    → (token_of digest s ≡ some t) × (is_usable t now ≡ true)
unfolding usable_token
usable_token-found digest name now s t h = (ground (arith, h), ground (arith, h))

mark_used-enrollments :
    (id : String) (device now : ℕ) (s s' : IdentityStore)
    → mark_used id device now s ≡ ok s'
    → s'.enrollments
      ≡ update_where
          (usable_id id now)
          (λ t. record t { used_at = some now; used_by_device_id = some device })
          s.enrollments
unfolding mark_used
mark_used-enrollments id device now s s' h = ground (arith, h)

enrolled_device-enrollments :
    (name : String) (group : ℕ) (version : Option String) (now : ℕ) (s s' : IdentityStore) (id : ℕ)
    → enrolled_device name group version now s ≡ ok (id, s')
    → s'.enrollments ≡ s.enrollments
unfolding enrolled_device
enrolled_device-enrollments name group version now s s' id h = ground (arith, h)

enroll-Enrolled :
    (digest name : String) (version : Option String) (refresh : String) (minutes days now : ℕ)
    (s s' : IdentityStore) (i : CredentialIssue)
    → enroll digest name version refresh minutes days now s ≡ ok (i, s')
    → Enrolled digest now s s'
unfolding enroll
enroll-Enrolled digest name version refresh minutes days now s s' i h =
    let (token, found_, enrolling) = returned-first (usable_token digest name now s) _ h in
    let (device, enrolled, marking) =
      returned-first (enrolled_device name token.group_id version now s) _ enrolling in
    let replaced = replace_credential device.0 refresh days now device.1 in
    let (marked, used, done) =
      returned-first (mark_used token.enrollment_id device.0 now replaced) _ marking in
    let last : s' ≡ marked = ground (arith, done) in
    let (stored, usable) = usable_token-found digest name now s token found_ in
    record {
      token = token;
      device = device.0;
      stored = stored;
      usable = usable;
      marked =
          ap (λ x. x.enrollments) last
          ∙ mark_used-enrollments token.enrollment_id device.0 now replaced marked used
          ∙ unfold replace_credential in
            ap
              (update_where (usable_id token.enrollment_id now)
                (λ t. record t { used_at = some now; used_by_device_id = some device.0 }))
              (enrolled_device-enrollments name token.group_id version now s device.1 device.0
                enrolled);
    }

Enrolled-spent :
    (digest : String) (now : ℕ) (s s' : IdentityStore)
    → Enrolled digest now s s'
    → is_spent_token digest s' ≡ true
Enrolled-spent digest now s s' e =
    let hit : usable_id e.token.enrollment_id now e.token ≡ true =
      ground (arith, e.usable, eq_iff e.token.enrollment_id e.token.enrollment_id) in
    ap (λ ts. spent_row (find_by (λ t. t.token_hash == digest) ts)) e.marked
    ∙ ap spent_row (find_by-update_where _ _ _ s.enrollments (λ t. refl))
    ∙ rw (e.stored, hit) refl

take_step-spent :
    (step : Step) (now : ℕ) (digest : String) (s : IdentityStore)
    → is_spent_token digest s ≡ true
    → is_spent_token digest (take_step step now s) ≡ true
unfolding take_step
take_step-spent (Step.issues id digest' name group ttl) now digest s h =
    elim (Bool-cases (is_active (group_of group s))) [
      | inl active ↦ unfold issue_enrollment in rw active (spent-append digest s.enrollments _ h)
      | inr inactive ↦ unfold issue_enrollment in rw inactive h
    ]
take_step-spent (Step.revokes id) now digest s h =
    unfold revoke_enrollment in ground (arith, h, spent-revoke digest id now s.enrollments)
take_step-spent (Step.rotates digest' new_digest minutes days) now digest s h =
    elim (Result-cases (rotate digest' new_digest minutes days now s)) [
      | inl (e, at) ↦ rw at h
      | inr ((i, s'), at) ↦
          let r = rotate-Rotated digest' new_digest minutes days now s s' i at in
          rw (at, r.replaced) (unfold replace_credential in h)
    ]
take_step-spent (Step.enrolls digest' name version refresh minutes days) now digest s h =
    elim (Result-cases (enroll digest' name version refresh minutes days now s)) [
      | inl (e, at) ↦ rw at h
      | inr ((i, s'), at) ↦
          let r = enroll-Enrolled digest' name version refresh minutes days now s s' i at in
          rw (at, r.marked)
            (spent-mark_used digest r.token.enrollment_id r.device now s.enrollments h)
    ]

take_steps-spent :
    (steps : List (Step × ℕ)) (digest : String) (s : IdentityStore)
    → is_spent_token digest s ≡ true
    → is_spent_token digest (take_steps steps s) ≡ true
take_steps-spent [] digest s h = h
take_steps-spent ((step, now) ∷ steps) digest s h =
    take_steps-spent steps digest (take_step step now s) (take_step-spent step now digest s h)

spent_refused :
    (digest name : String) (version : Option String) (refresh : String) (minutes days now : ℕ)
    (s : IdentityStore)
    → is_spent_token digest s ≡ true
    → enroll digest name version refresh minutes days now s ≡ error enrollment_token_invalid
unfolding enroll
spent_refused digest name version refresh minutes days now s h =
    let refused : usable_token digest name now s ≡ error enrollment_token_invalid =
      unfold usable_token in ground (arith, h) in
    rw refused refl

-- An enrollment token enrolls once: after an enrollment, and whatever transactions follow, the same
-- token is invalid, for any device name.
pub enroll-once :
    (digest name name' : String) (version version' : Option String) (refresh refresh' : String)
    (minutes days now now' : ℕ) (s s' : IdentityStore) (i : CredentialIssue)
    (steps : List (Step × ℕ))
    → enroll digest name version refresh minutes days now s ≡ ok (i, s')
    → enroll digest name' version' refresh' minutes days now' (take_steps steps s')
      ≡ error enrollment_token_invalid
enroll-once digest name name' version version' refresh refresh' minutes days now now' s s' i steps
      h =
    spent_refused digest name' version' refresh' minutes days now' (take_steps steps s') (
      take_steps-spent steps digest s' (
        Enrolled-spent digest now s s'
          (enroll-Enrolled digest name version refresh minutes days now s s' i h)))
