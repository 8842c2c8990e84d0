-- ===== src/Health/Preflight.antt =====
-- internal/health/preflight.go
use garage_storage_controlle.Prelude.{String, none, some, List, [], ◌∷◌, if◌then◌else◌}
use garage_storage_controlle.Exec.{Exec, ◌>>=◌, ok, returned, failed, attempt}
use garage_storage_controlle.Kube.Manager.{
  Logger, LogValue, log_text, log_pointer, log_texts, log_error,
}
use garage_storage_controlle.Garage.Types.{AdminTokenInfo}

-- the interface GarageAdminAuth
pub record GarageAdminAuth (S : Type 0) : Type 0 where
  pub current_token_info : Exec S AdminTokenInfo

-- `if info.Expiration != nil` and what follows it
abbrev expiration_and_scopes : AdminTokenInfo → List (String × LogValue)
expiration_and_scopes info = elim info.expiration [
  | none ↦ ("scopes", log_texts info.scope) ∷ []
  | some t ↦ ("expiration", log_text t) ∷ ("scopes", log_texts info.scope) ∷ []
]

module _ {S : Type 0} (log : Logger S) where
  -- the log line about a token that Garage accepts
  unfoldable pub report_token : AdminTokenInfo → S → S
  report_token info =
      if info.expired
      then log.info "garage admin API reachable but token EXPIRED"
          (("token", log_text info.name) ∷ ("expiration", log_pointer info.expiration) ∷ [])
      else log.info "garage admin API reachable, token accepted"
          (("token", log_text info.name) ∷ expiration_and_scopes info)

  unfoldable pub preflight_check : GarageAdminAuth S → Exec S (Unit {0})
  unfolding report_token
  preflight_check garage_adm = do
    asked ← attempt garage_adm.current_token_info
    elim asked [
      | failed e ↦ λ w. (
        ok tt,
        log.info
            "garage admin API preflight failed, starting anyway; check GARAGE_API_ENDPOINT / GARAGE_API_TOKEN"
            (("error", log_error e) ∷ []) w,
      )
      | returned info ↦ λ w. (ok tt, report_token info w)
    ]
