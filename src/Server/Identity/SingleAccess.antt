-- ===== src/Server/Identity/SingleAccess.antt =====
-- The access tokens of a device are good for one credential only.
use time_weaver.Prelude.{
  ℕ, ◌≤◌, ◌≡◌, Bool, true, false, ◌&&◌, none, some, List, [], ◌∷◌, ◌==◌, nat_comparable,
  text_comparable, is_none, arith, Option-cases, inl, inr,
}
use time_weaver.Server.Database.{find_by}
use time_weaver.Server.Identity.{DeviceCredential, IdentityStore}
use time_weaver.Server.Identity.Access.{DeviceIdentity, get_access_identity, verify_access}
use time_weaver.Server.Identity.Steps.{Step, take_steps}
use time_weaver.Server.Identity.Credentials.{live, take_steps-CredentialsKept}

abbrev by_ids : ℕ → ℕ → DeviceCredential → Bool
by_ids credential device c = c.credential_id == credential && c.device_id == device

found_live :
    (credential device : ℕ) (cs : List DeviceCredential) (c : DeviceCredential)
    → find_by (by_ids credential device) cs ≡ some c
    → is_none c.revoked_at ≡ true
    → 1 ≤ live device cs
unfolding find_by live
found_live credential device [] c at is = cc
found_live credential device (r ∷ cs) c at is =
    ground (arith, at, is, found_live credential device cs c)

one_live :
    (a b device : ℕ) (cs : List DeviceCredential) (c d : DeviceCredential)
    → live device cs ≤ 1
    → find_by (by_ids a device) cs ≡ some c
    → is_none c.revoked_at ≡ true
    → find_by (by_ids b device) cs ≡ some d
    → is_none d.revoked_at ≡ true
    → a ≡ b
unfolding find_by live
one_live a b device [] c d h at is at' is' = cc
one_live a b device (r ∷ cs) c d h at is at' is' = ground (
  arith,
  h,
  at,
  is,
  at',
  is',
  one_live a b device cs c d,
  found_live a device cs c,
  found_live b device cs d,
)

verified :
    (credential device now : ℕ) (s : IdentityStore) (i : DeviceIdentity)
    → verify_access credential device now s ≡ some i
    → (c : DeviceCredential) × (find_by (by_ids credential device) s.credentials ≡ some c)
      × (is_none c.revoked_at ≡ true)
unfolding verify_access get_access_identity
verified credential device now s i h =
    elim (Option-cases (find_by (by_ids credential device) s.credentials)) [
      | inl absent ↦ let bad : true ≡ false = ground (arith, absent, h) in cc bad
      | inr (c, at) ↦ (c, at, ground (arith, at, h))
    ]

same_credential :
    (s : IdentityStore) (a b device now now' : ℕ) (i j : DeviceIdentity)
    → live device s.credentials ≤ 1
    → verify_access a device now s ≡ some i
    → verify_access b device now' s ≡ some j
    → a ≡ b
same_credential s a b device now now' i j h first second =
    let (c, at, is) = verified a device now s i first in
    let (d, at', is') = verified b device now' s j second in
    one_live a b device s.credentials c d h at is at' is'

-- From tables in which each device has at most one credential that is not revoked, and after any
-- transactions: if access is granted to a device for one credential, then it is refused, at any time,
-- for every other credential of the device.
pub verify_access-single :
    (s : IdentityStore) (steps : List (Step × ℕ)) (a b device now now' : ℕ) (i : DeviceIdentity)
    → ((d : ℕ) → live d s.credentials ≤ 1)
    → verify_access a device now (take_steps steps s) ≡ some i
    → (a == b) ≡ false
    → verify_access b device now' (take_steps steps s) ≡ none
verify_access-single s steps a b device now now' i h first differ =
    let after = take_steps steps s in
    elim (Option-cases (verify_access b device now' after)) [
      | inl refused ↦ refused
      | inr (j, second) ↦
          let same : a ≡ b =
            same_credential after a b device now now' i j
              ((take_steps-CredentialsKept steps s).single h device) first second in
          let bad : true ≡ false = ground (arith, same, differ) in cc bad
    ]
