-- ===== src/Profile.antt =====
-- rust/issuer-service/src/main.rs: the credential configurations that the issuer knows, the closed
-- set of scopes, and the labels of the signing keys.
use Prim.Native.String.{String}
use text.Mathlib.Text.{◌==◌}
use vcissuer.Prelude.{ltb, Bool, ◌&&◌, ◌||◌, List, [], ◌∷◌, length, all, any}
use vcissuer.Text.{split_ascii_whitespace}

abbrev pub pid_sd_jwt : String
pid_sd_jwt = "eu.europa.ec.eudi.pid_vc_sd_jwt.de"

abbrev pub pid_mdoc : String
pid_mdoc = "eu.europa.ec.eudi.pid_mso_mdoc.de"

abbrev pub eaa_mdoc : String
eaa_mdoc = "org.iso.18013.5.1.mDL.de"

abbrev pub qeaa_sd_jwt : String
qeaa_sd_jwt = "urn:eu.europa.ec.eudi:learning:credential:1:dc+sd-jwt:de"

abbrev pub qeaa_pid_bound_sd_jwt : String
qeaa_pid_bound_sd_jwt = "urn:eu.europa.ec.eudi:learning:credential:1:dc+sd-jwt:de:pid-bound"

abbrev pub pid_vct : String
pid_vct = "eu.europa.ec.eudi.pid.1"

abbrev pub pid_from_emrtd_sd_jwt : String
pid_from_emrtd_sd_jwt = "eu.europa.ec.eudi.pid_vc_sd_jwt.de:nfc"

abbrev pub pid_from_emrtd_mdoc : String
pid_from_emrtd_mdoc = "eu.europa.ec.eudi.pid_mso_mdoc.de:nfc"

abbrev pub dev_svipe_pid_sd_jwt : String
dev_svipe_pid_sd_jwt = "dev.svipe.pid.sd-jwt"

abbrev pub tlsn_evidence_sd_jwt : String
tlsn_evidence_sd_jwt = "dev.advatar.tlsn.evidence.sd-jwt"

abbrev pub hybrid_pq_sd_jwt : String
hybrid_pq_sd_jwt = "dev.advatar.hybrid-pq.sd-jwt.v1"

abbrev pub mandate_sd_jwt : String
mandate_sd_jwt = "urn:eudi:mandate:1:dc+sd-jwt:de"

unfoldable pub is_nfc_pid : String → Bool
is_nfc_pid profile = profile == pid_from_emrtd_sd_jwt || profile == pid_from_emrtd_mdoc

-- The array `allowed` of `valid_scope`.
abbrev pub allowed_scopes : List String
allowed_scopes =
    pid_sd_jwt ∷ pid_from_emrtd_sd_jwt ∷ pid_mdoc ∷ eaa_mdoc ∷ qeaa_sd_jwt ∷ qeaa_pid_bound_sd_jwt
    ∷ dev_svipe_pid_sd_jwt ∷ tlsn_evidence_sd_jwt ∷ mandate_sd_jwt ∷ []

unfoldable pub is_allowed : Bool → String → Bool
is_allowed hybrid_pq_enabled item =
    any (◌==◌ item) allowed_scopes || hybrid_pq_enabled && item == hybrid_pq_sd_jwt

-- A scope is a list of allowed items, and has one at least.
unfoldable pub valid_scope : String → Bool → Bool
unfolding is_allowed
valid_scope scope hybrid_pq_enabled =
    let items = split_ascii_whitespace scope in
    all (is_allowed hybrid_pq_enabled) items && ltb 0 (length items)
