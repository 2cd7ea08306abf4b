-- ===== src/Flow/Granted/Tables.antt =====
-- The tables with one entry more, and the rules for a run that goes on after a check.
use Prim.Native.String.{String}
use vcissuer.Prelude.{◌≡◌, refl}
use vcissuer.Oauth.{Result, ok, err}
use vcissuer.Platform.{Platform}
use vcissuer.Table.{insert, Values-insert}
use vcissuer.State.{
  PushedAuthorization, AuthorizationCode, AccessToken, CredentialOffer, VolatileState, Config,
  Handler, continue,
}
use vcissuer.Flow.Granted.{Genuine, Granted, WellFormed}

module _ {V : Type 0} (p : Platform V) (config : Config V) where
  open p use {url_join}

  -- A check leaves the state alone, and what follows may use that it passed.
  pub checked :
      {A B : Type 0} (r : Result A) (f : A → Handler V B) (s : VolatileState V)
      → WellFormed p config s
      → ((a : A) → r ≡ ok a → WellFormed p config (f a s).1)
      → WellFormed p config (continue (r, s) f).1
  checked (ok a) f s w g = g a refl
  checked (err e) f s w g = w

  pub followed :
      {A B : Type 0} (r : Result A × VolatileState V) (f : A → Handler V B)
      → WellFormed p config r.1
      → ((a : A) (t : VolatileState V) → WellFormed p config t → WellFormed p config (f a t).1)
      → WellFormed p config (continue r f).1
  followed (ok a, t) f w g = g a t w
  followed (err e, t) f w g = w

  pub pushed-WellFormed :
      (k : String) (a : PushedAuthorization V) (s : VolatileState V)
      → Granted p config a.scope a.tlsn_evidence
      → WellFormed p config s
      → WellFormed p config (record s { pushed = insert k a s.pushed })
  pushed-WellFormed k a s g w = record {
    pushed = Values-insert (λ a. Granted p config a.scope a.tlsn_evidence) k a s.pushed g w.pushed;
    codes = w.codes;
    tokens = w.tokens;
    offers = w.offers;
  }

  pub offers-WellFormed :
      (k : String) (o : CredentialOffer V) (s : VolatileState V)
      → Genuine p config o.tlsn_evidence
      → WellFormed p config s
      → WellFormed p config (record s { offers = insert k o s.offers })
  offers-WellFormed k o s g w = record {
    pushed = w.pushed;
    codes = w.codes;
    tokens = w.tokens;
    offers = Values-insert (λ o. Genuine p config o.tlsn_evidence) k o s.offers g w.offers;
  }

  pub codes-WellFormed :
      (k : String) (c : AuthorizationCode V) (s : VolatileState V)
      → Granted p config c.scope c.tlsn_evidence
      → WellFormed p config s
      → WellFormed p config (record s { codes = insert k c s.codes })
  codes-WellFormed k c s g w = record {
    pushed = w.pushed;
    codes = Values-insert (λ c. Granted p config c.scope c.tlsn_evidence) k c s.codes g w.codes;
    tokens = w.tokens;
    offers = w.offers;
  }

  pub tokens-WellFormed :
      (k : String) (t : AccessToken V) (s : VolatileState V)
      → Granted p config t.scope t.tlsn_evidence
      → WellFormed p config s
      → WellFormed p config (record s { tokens = insert k t s.tokens })
  tokens-WellFormed k t s g w = record {
    pushed = w.pushed;
    codes = w.codes;
    tokens = Values-insert (λ t. Granted p config t.scope t.tlsn_evidence) k t s.tokens g w.tokens;
    offers = w.offers;
  }
