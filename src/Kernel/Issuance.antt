-- ===== src/Kernel/Issuance.antt =====
-- When the kernel signs: `authorize_sign` and `may_issue` against their conditions as propositions.
use vcissuer.Prelude.{ℕ, ◌≤◌, ◌<◌, ◌≡◌, refl, ◌≢◌, ◌↔◌, true, false, Option, none, some, arith}
use vcissuer.Kernel.{
  pid, representation, Evidence, Request, Session, SignCommand, Delegation, ChipLivenessEvidence,
  signed, usable_at, role_evidence_ok, delegation_ok, representation_for, representation_ok,
  chip_ok, chip_liveness_ok, device_binding_ok, may_issue, authorize_sign, subset_of, is_empty,
  command_powers,
}

-- The window of an evidence value, closed at the start and at the freshness bound.
pub record Usable (e : Evidence) (now : ℕ) : Type 0 where
  pub accepted : e.accepted ≡ true
  pub begun : e.valid_from ≤ now
  pub unexpired : now < e.valid_until
  pub fresh : now ≤ e.fresh_until

pub usable_at_iff : (e : Evidence) (now : ℕ) → (usable_at e now ≡ true) ↔ Usable e now
unfolding usable_at
usable_at_iff e now = ground arith

-- What the request and the session must agree on, whatever the time.
pub record Bound (s : Session) (r : Request) : Type 0 where
  pub profile : s.profile.id ≡ r.profile
  pub authorized_profile : s.authorization.profile ≡ r.profile
  pub authorized_subject : s.authorization.subject ≡ r.subject
  pub authorized_dataset : s.authorization.dataset ≡ r.dataset
  pub token_key : s.token.dpop_key ≡ r.dpop_key
  pub nonce : r.proof.nonce ≡ s.expected_nonce
  pub holder_key : r.proof.holder_key ≡ r.dpop_key
  pub subject : s.subject.subject ≡ r.subject
  pub dataset : s.subject.dataset ≡ r.dataset
  pub expiry : r.expiry ≤ s.wia_ka_maintenance_end

-- The flags of the session, and the gates that a profile opts into.
pub record Cleared (s : Session) (r : Request) : Type 0 where
  pub enabled : s.profile.enabled ≡ true
  pub entitled_issuer : s.issuer_entitled ≡ true
  pub nonce_unused : s.nonce_unused ≡ true
  pub wallet_not_revoked : s.wallet.wallet_not_revoked ≡ true
  pub possession : r.proof.possession_valid ≡ true
  pub device_key : s.profile.device_binding_required ≡ true → s.wallet.holder_key_approved ≡ true
  pub device_ka : s.profile.device_binding_required ≡ true → s.wallet.ka ≢ none
  pub entitled_subject : s.subject.entitled ≡ true
  pub claims_current : s.subject.claims_current ≡ true
  pub pid_bound : s.profile.pid_binding_required ≡ true → s.subject.pid_binding_verified ≡ true
  pub loa_high : s.profile.role ≡ pid → s.subject.loa_high ≡ true
  pub status_reserved : s.status_reserved ≡ true
  pub first_issue : s.already_issued ≡ false
  pub hybrid_pq : s.profile.require_hybrid_pq ≡ true → s.hybrid_pq_bound ≡ true

-- The evidence that has to be usable at the time of signing.
pub record Timely (s : Session) (r : Request) (now : ℕ) : Type 0 where
  pub authorization : Usable s.authorization.evidence now
  pub token : Usable s.token.evidence now
  pub proof : Usable r.proof.evidence now
  pub wia : Usable s.wallet.wia now
  pub subject : Usable s.subject.evidence now

-- The two gates with optional evidence.
abbrev pub Represented : Option Delegation → Request → ℕ → Type 0
Represented none r now = ⊥
Represented (some d) r now =
    Usable d.delegator_evidence now
    × (d.mandate_not_revoked ≡ true)
    × (d.delegate_key ≡ r.proof.holder_key)
    × (r.requested_powers ≢ 0)
    × (subset_of r.requested_powers d.grant ≡ true)

abbrev pub ChipRead : Option ChipLivenessEvidence → Request → ℕ → Type 0
ChipRead none r now = ⊥
ChipRead (some e) r now =
    Usable e.evidence now
    × (e.sod_passive_auth ≡ true)
    × (e.chip_authentic ≡ true)
    × (e.liveness_matched ≡ true)
    × (e.subject ≡ r.subject)

pub record MayIssue (s : Session) (r : Request) (now : ℕ) : Type 0 where
  pub bound : Bound s r
  pub cleared : Cleared s r
  pub timely : Timely s r now
  pub represented : s.profile.role ≡ representation → Represented s.delegation r now
  pub chip_read : s.profile.require_chip_liveness ≡ true → ChipRead s.chip_evidence r now

delegation_ok_iff :
    (d : Option Delegation) (r : Request) (now : ℕ)
    → (delegation_ok d r now ≡ true) ↔ Represented d r now
unfolding delegation_ok is_empty
delegation_ok_iff none r now = ground arith
delegation_ok_iff (some d) r now = ground (arith, usable_at_iff d.delegator_evidence now)

chip_ok_iff :
    (e : Option ChipLivenessEvidence) (r : Request) (now : ℕ)
    → (chip_ok e r now ≡ true) ↔ ChipRead e r now
unfolding chip_ok
chip_ok_iff none r now = ground arith
chip_ok_iff (some e) r now = ground (arith, usable_at_iff e.evidence now)

module _ (s : Session) (r : Request) (now : ℕ) where
  may_issue-Bound : may_issue s r now ≡ true → Bound s r
  unfolding may_issue
  may_issue-Bound h = ground arith

  may_issue-Cleared : may_issue s r now ≡ true → Cleared s r
  unfolding may_issue role_evidence_ok device_binding_ok
  may_issue-Cleared h = ground arith

  may_issue-Timely : may_issue s r now ≡ true → Timely s r now
  unfolding may_issue
  may_issue-Timely h = ground (
    arith,
    usable_at_iff s.authorization.evidence now,
    usable_at_iff s.token.evidence now,
    usable_at_iff r.proof.evidence now,
    usable_at_iff s.wallet.wia now,
    usable_at_iff s.subject.evidence now,
  )

  may_issue-Represented :
      may_issue s r now ≡ true → s.profile.role ≡ representation → Represented s.delegation r now
  unfolding may_issue representation_ok representation_for
  may_issue-Represented h = ground (arith, delegation_ok_iff s.delegation r now)

  may_issue-ChipRead :
      may_issue s r now ≡ true
      → s.profile.require_chip_liveness ≡ true
      → ChipRead s.chip_evidence r now
  unfolding may_issue chip_liveness_ok
  may_issue-ChipRead h = ground (arith, chip_ok_iff s.chip_evidence r now)

  may_issue_of_MayIssue : MayIssue s r now → may_issue s r now ≡ true
  unfolding may_issue role_evidence_ok representation_ok representation_for chip_liveness_ok
      device_binding_ok
  may_issue_of_MayIssue m = ground (
    arith,
    usable_at_iff s.authorization.evidence now,
    usable_at_iff s.token.evidence now,
    usable_at_iff r.proof.evidence now,
    usable_at_iff s.wallet.wia now,
    usable_at_iff s.subject.evidence now,
    delegation_ok_iff s.delegation r now,
    chip_ok_iff s.chip_evidence r now,
  )

-- The kernel's predicate holds exactly when the request is bound to the session, the session is
-- cleared, every evidence value is usable now, a representation has a live delegation that covers
-- the requested powers, and a profile that requires a chip read has one of the request's subject.
pub may_issue_iff :
    (s : Session) (r : Request) (now : ℕ) → (may_issue s r now ≡ true) ↔ MayIssue s r now
may_issue_iff s r now = (
  λ h. record {
    bound = may_issue-Bound s r now h;
    cleared = may_issue-Cleared s r now h;
    timely = may_issue-Timely s r now h;
    represented = may_issue-Represented s r now h;
    chip_read = may_issue-ChipRead s r now h;
  },
  may_issue_of_MayIssue s r now,
)

pub may_issue_of_signed :
    (s : Session) (r : Request) (now : ℕ) {c : SignCommand}
    → authorize_sign s r now ≡ signed c
    → may_issue s r now ≡ true
unfolding authorize_sign
may_issue_of_signed s r now h = ground arith

pub authorize_sign_iff :
    (s : Session) (r : Request) (now : ℕ)
    → ((c : SignCommand) × (authorize_sign s r now ≡ signed c)
        × (c.session ≡ s.id)
        × (c.request ≡ r.id)
        × (c.profile ≡ s.profile.id)
        × (c.subject ≡ s.authorization.subject)
        × (c.holder_key ≡ s.token.dpop_key))
      ↔ MayIssue s r now
unfolding authorize_sign
authorize_sign_iff s r now = (
  λ h. (may_issue_iff s r now).0 (may_issue_of_signed s r now h.1),
  λ m.
      let b = m.bound in
      let command : SignCommand = record {
        session = s.id;
        request = r.id;
        profile = r.profile;
        subject = r.subject;
        holder_key = r.proof.holder_key;
        on_behalf_of = (command_powers s.profile.role s.delegation r).0;
        granted_powers = (command_powers s.profile.role s.delegation r).1;
      } in
      (
        command,
        rw ((may_issue_iff s r now).1 m),
        refl,
        refl,
        omega (arith, b.profile),
        omega (arith, b.authorized_subject),
        omega (arith, b.token_key, b.holder_key),
      ),
)

Usable-between :
    (e : Evidence) (early now late : ℕ)
    → early ≤ now
    → now ≤ late
    → Usable e early
    → Usable e late
    → Usable e now
Usable-between e early now late p q u v = ground arith

Represented-between :
    (d : Option Delegation) (r : Request) (early now late : ℕ)
    → early ≤ now
    → now ≤ late
    → Represented d r early
    → Represented d r late
    → Represented d r now
Represented-between none r early now late p q u v = u
Represented-between (some d) r early now late p q u v =
    ground (arith, Usable-between d.delegator_evidence early now late p q)

ChipRead-between :
    (e : Option ChipLivenessEvidence) (r : Request) (early now late : ℕ)
    → early ≤ now
    → now ≤ late
    → ChipRead e r early
    → ChipRead e r late
    → ChipRead e r now
ChipRead-between none r early now late p q u v = u
ChipRead-between (some e) r early now late p q u v =
    ground (arith, Usable-between e.evidence early now late p q)

-- The times at which a request can be signed form an interval: what is allowed early and allowed
-- late is allowed at every time in between.
pub may_issue-between :
    (s : Session) (r : Request) (early now late : ℕ)
    → early ≤ now
    → now ≤ late
    → may_issue s r early ≡ true
    → may_issue s r late ≡ true
    → may_issue s r now ≡ true
may_issue-between s r early now late p q h k =
    let m = (may_issue_iff s r early).0 h in
    let n = (may_issue_iff s r late).0 k in
    let between = λ (e : Evidence) (u : Usable e early) (v : Usable e late).
      Usable-between e early now late p q u v in
    (may_issue_iff s r now).1 (record {
      bound = m.bound;
      cleared = m.cleared;
      timely = record {
        authorization = between _ m.timely.authorization n.timely.authorization;
        token = between _ m.timely.token n.timely.token;
        proof = between _ m.timely.proof n.timely.proof;
        wia = between _ m.timely.wia n.timely.wia;
        subject = between _ m.timely.subject n.timely.subject;
      };
      represented = λ role.
          Represented-between s.delegation r early now late p q (m.represented role)
            (n.represented role);
      chip_read = λ required.
          ChipRead-between s.chip_evidence r early now late p q (m.chip_read required)
            (n.chip_read required);
    })
