-- ===== src/Common/Log.antt =====
-- common/src/with_log.rs, and `logmsg` of common/src/log.rs: what is written of a failed result. How an
-- error and a line number are printed is an argument.
use verse_entrance_server.Base.{ℕ, ◌≡◌, refl, ◌↔◌, List, [], ◌∷◌, ◌++◌, length, Bytes, codes}

pub data Level : Type 0 where
  trace debug info warn error : Level

pub data Outcome (T E : Type 0) : Type 0 where
  ok : T → Outcome T E
  err : E → Outcome T E

-- `logmsg`
abbrev pub logmsg : (ℕ → Bytes) → Bytes → Bytes → ℕ → Bytes
logmsg print v file line = v ++ codes " " ++ file ++ codes ":" ++ print line

module _ {T E : Type 0} (show : E → Bytes) where
  abbrev failed : Level → Bytes → Outcome T E → List (Level × Bytes)
  failed level msg (ok v) = []
  failed level msg (err e) = (level, codes "result failed: " ++ msg ++ codes " " ++ show e) ∷ []

  unfoldable pub if_err_warn : Outcome T E → Bytes → List (Level × Bytes)
  if_err_warn r msg = failed warn msg r

  unfoldable pub if_err_error : Outcome T E → Bytes → List (Level × Bytes)
  if_err_error r msg = failed error msg r

  unfoldable pub if_err_info : Outcome T E → Bytes → List (Level × Bytes)
  if_err_info r msg = failed info msg r

  unfoldable pub if_err_debug : Outcome T E → Bytes → List (Level × Bytes)
  if_err_debug r msg = failed debug msg r

  unfoldable pub if_err_trace : Outcome T E → Bytes → List (Level × Bytes)
  if_err_trace r msg = failed trace msg r

  -- Of a result that is no error nothing is written, at any level; of an error, one line each.
  if_err-lines :
      (r : Outcome T E) (msg : Bytes)
      → (length (if_err_trace r msg) ≡ length (if_err_error r msg))
        × (length (if_err_debug r msg) ≡ length (if_err_error r msg))
        × (length (if_err_info r msg) ≡ length (if_err_error r msg))
        × (length (if_err_warn r msg) ≡ length (if_err_error r msg))
        × ((if_err_error r msg ≡ []) ↔ ((v : T) × (r ≡ ok v)))
  unfolding if_err_trace if_err_debug if_err_info if_err_warn if_err_error
  if_err-lines (ok v) msg = (refl, refl, refl, refl, ((λ e. (v, refl)), (λ p. refl)))
  if_err-lines (err e) msg =
      (refl, refl, refl, refl, ((λ f. absurd (full f)), (λ (v, f). absurd (apart f))))
    where
      full : {x : Level × Bytes} → x ∷ [] ≡ [] → ⊥
      full k = cc

      apart : {v : T} → err e ≡ ok v → ⊥
      apart k = cc
