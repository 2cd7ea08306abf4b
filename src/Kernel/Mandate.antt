-- ===== src/Kernel/Mandate.antt =====
-- What a signed mandate carries: `representation_ok` and the powers of `authorize_sign`.
use vcissuer.Prelude.{ℕ, ◌≡◌, refl, sym, ◌∙◌, ◌≢◌, true, Option, none, some, arith}
use vcissuer.Kernel.{
  IssuerRole, representation, Request, Session, SignCommand, Delegation, signed, authorize_sign,
  command_powers,
}
use vcissuer.Kernel.Issuance.{Usable, Represented, may_issue_iff, may_issue_of_signed}
use vcissuer.Kernel.Powers.{Includes, subset_of_iff}

-- A mandate acts for the delegator of a live delegation, carries powers that the delegator holds,
-- at least one of them, and is bound to the delegate's key.
pub record Delegated (s : Session) (c : SignCommand) (delegator now : ℕ) : Type 0 where
  pub role : s.profile.role ≡ representation
  pub delegation : Delegation
  pub held : s.delegation ≡ some delegation
  pub acts_for : delegation.delegator ≡ delegator
  pub live : Usable delegation.delegator_evidence now
  pub not_revoked : delegation.mandate_not_revoked ≡ true
  pub bound_key : c.holder_key ≡ delegation.delegate_key
  pub some_power : c.granted_powers ≢ 0
  pub narrow : Includes c.granted_powers delegation.grant

pub signed_powers :
    (s : Session) (r : Request) (now : ℕ) (c : SignCommand)
    → authorize_sign s r now ≡ signed c
    → (c.on_behalf_of ≡ (command_powers s.profile.role s.delegation r).0)
      × (c.granted_powers ≡ (command_powers s.profile.role s.delegation r).1)
      × (c.holder_key ≡ r.proof.holder_key)
unfolding authorize_sign
signed_powers s r now c h = ground arith

command_powers-some :
    (role : IssuerRole) (d : Option Delegation) (r : Request) {delegator : ℕ}
    → (command_powers role d r).0 ≡ some delegator
    → (role ≡ representation)
      × ((held : Delegation) × (d ≡ some held)
          × (held.delegator ≡ delegator)
          × ((command_powers role d r).1 ≡ r.requested_powers))
unfolding command_powers
command_powers-some representation (some d) r h = (refl, (d, refl, ground arith, refl))
command_powers-some representation none r h = cc
command_powers-some _ d r h = cc

command_powers-none :
    (role : IssuerRole) (d : Option Delegation) (r : Request)
    → (command_powers role d r).0 ≡ none
    → ((command_powers role d r).1 ≡ 0) × (role ≡ representation → d ≡ none)
unfolding command_powers
command_powers-none representation (some d) r h = cc
command_powers-none representation none r h = (refl, λ _. refl)
command_powers-none _ d r h = (refl, λ e. cc)

-- A command on behalf of a delegator is a delegated mandate: the role is representation, the
-- delegation is live and names this delegator, the command's key is the delegate's, and the
-- powers are a non-empty part, bit by bit, of what the delegator was granted.
pub on_behalf_of-Delegated :
    (s : Session) (r : Request) (now : ℕ) (c : SignCommand) (delegator : ℕ)
    → authorize_sign s r now ≡ signed c
    → c.on_behalf_of ≡ some delegator
    → Delegated s c delegator now
on_behalf_of-Delegated s r now c delegator h e =
    let (acts, powers, key) = signed_powers s r now c h in
    let (role, (d, held, same, given)) =
      command_powers-some s.profile.role s.delegation r (sym acts ∙ e) in
    let m = (may_issue_iff s r now).0 (may_issue_of_signed s r now h) in
    let (live, not_revoked, bound_key, nonempty, narrow) : Represented (some d) r now =
      rw held at (m.represented role) in
    let granted = powers ∙ given in
    record {
      role = role;
      delegation = d;
      held = held;
      acts_for = same;
      live = live;
      not_revoked = not_revoked;
      bound_key = key ∙ sym bound_key;
      some_power = λ z. nonempty (sym granted ∙ z);
      narrow = rw granted ((subset_of_iff r.requested_powers d.grant).0 narrow);
    }

-- A command on behalf of nobody carries no power, and its session's role is another one.
pub no_delegator-no_powers :
    (s : Session) (r : Request) (now : ℕ) (c : SignCommand)
    → authorize_sign s r now ≡ signed c
    → c.on_behalf_of ≡ none
    → (c.granted_powers ≡ 0) × (s.profile.role ≢ representation)
no_delegator-no_powers s r now c h e =
    let (acts, powers, key) = signed_powers s r now c h in
    let m = (may_issue_iff s r now).0 (may_issue_of_signed s r now h) in
    let (zero_powers, absent) = command_powers-none s.profile.role s.delegation r (sym acts ∙ e) in
    (powers ∙ zero_powers, λ role. rw (absent role) at (m.represented role))
