-- ===== src/Webhook/Attempts.antt =====
-- How often a delivery is tried, how long it waits, and what it records.
use freellm_gateway.Base.{
  ℕ, zero, suc, ◌+◌, ◌-◌, String, Bool, true, false, Option, none, some, List, [], ◌∷◌, ◌++◌, ◌≡◌,
  refl, ◌∙◌, arith, ltb, if◌then◌else◌, Bool-cases, inl, inr,
}
use freellm_gateway.Webhook.{
  WebhookOptions, Delivery, responded, threw, DeliveryRow, Action, posts, waits, counts, rows,
  reports, pause, attempt_from, deliver_with_retry,
}

-- What a list of actions comes to: the requests, the waiting, the rows and the reports.
pub record Sum : Type 0 where
  pub requests : ℕ
  pub waited : ℕ
  pub rows_made : List DeliveryRow
  pub reports_made : ℕ

abbrev pub sum : List Action → Sum
sum [] = record { requests = 0; waited = 0; rows_made = []; reports_made = 0 }
sum (posts n ∷ more) = let s = sum more in record s { requests = s.requests + 1 }
sum (waits ms ∷ more) = let s = sum more in record s { waited = s.waited + ms }
sum (counts e ∷ more) = sum more
sum (rows r ∷ more) = let s = sum more in record s { rows_made = r ∷ s.rows_made }
sum (reports m n ∷ more) = let s = sum more in record s { reports_made = s.reports_made + 1 }

module _ (opts : WebhookOptions) (not_ok : String) (clip : String → String)
    (answers : ℕ → Delivery) where
  abbrev pub is_ok : Delivery → Bool
  is_ok (responded true status) = true
  is_ok (responded false status) = false
  is_ok (threw message) = false

  -- The first of the next attempts that succeeds.
  abbrev pub first_ok : ℕ → ℕ → Option ℕ
  first_ok zero attempt = none
  first_ok (suc left) attempt =
      let rest = first_ok left (attempt + 1) in
      if is_ok (answers attempt) then some attempt else rest

  -- Delivered at attempt k: k + 1 requests, one row that says so, no report. Not delivered: all
  -- requests, one row of a failure, one report.
  abbrev pub Recorded : ℕ → Option ℕ → Sum → Type 0
  Recorded attempt (some k) s =
      (s.requests + attempt ≡ k + 1)
      × ((status : ℕ) × (s.rows_made
            ≡ record {
              ok = true;
              http_status = some status;
              attempts = k + 1;
              error_message = none;
            }
              ∷ [])
          × (answers k ≡ responded true status))
      × (s.reports_made ≡ 0)
  Recorded attempt none s =
      (s.requests + attempt ≡ opts.max_attempts)
      × ((r : DeliveryRow) × (s.rows_made ≡ r ∷ [])
          × (r.ok ≡ false)
          × (r.attempts ≡ opts.max_attempts))
      × (s.reports_made ≡ 1)

  sum-pause :
      (attempt : ℕ) (more : List Action)
      → let s = sum (pause opts not_ok clip answers attempt ++ more) in
        (s.requests ≡ (sum more).requests)
        × (s.rows_made ≡ (sum more).rows_made)
        × (s.reports_made ≡ (sum more).reports_made)
  sum-pause attempt more = elim (Bool-cases (ltb attempt (opts.max_attempts - 1))) [
    | inl e ↦ rw e (refl, refl, refl)
    | inr e ↦ rw e (refl, refl, refl)
  ]

  -- One attempt that fails, with its pause, in front of what follows.
  later :
      (attempt : ℕ) (more : List Action) (o : Option ℕ)
      → Recorded (attempt + 1) o (sum more)
      → Recorded attempt o (sum (posts attempt ∷ pause opts not_ok clip answers attempt ++ more))
  later attempt more (some k) (total, (status, row, found), none') =
      let (requests, rows', reports') = sum-pause attempt more in
      (omega (arith, total, requests), (status, rows' ∙ row, found), reports' ∙ none')
  later attempt more none (total, (r, row, failed, all), one) =
      let (requests, rows', reports') = sum-pause attempt more in
      (omega (arith, total, requests), (r, rows' ∙ row, failed, all), reports' ∙ one)

  attempt_from-Recorded :
      (left attempt : ℕ) (last_error : Option String) (last_status : Option ℕ)
      → attempt + left ≡ opts.max_attempts
      → Recorded attempt
          (first_ok left attempt)
          (sum (attempt_from opts not_ok clip answers left attempt last_error last_status attempt))
  unfolding attempt_from
  attempt_from-Recorded zero attempt last_error last_status e =
      (omega (arith, e), (_, refl, refl, omega (arith, e)), refl)
  attempt_from-Recorded (suc left) attempt last_error last_status e =
      go (answers attempt) refl
        (λ err st. attempt_from-Recorded left (attempt + 1) err st (omega (arith, e)))
    where
      go :
          (d : Delivery)
          → answers attempt ≡ d
          → ((err : Option String) (st : Option ℕ)
              → Recorded (attempt + 1) (first_ok left (attempt + 1)) (
                  sum (
                    attempt_from opts not_ok clip answers left (attempt + 1) err st (attempt + 1))))
          → Recorded attempt (first_ok (suc left) attempt) (
              sum (
                attempt_from opts not_ok clip answers
                  (suc left)
                  attempt
                  last_error
                  last_status
                  attempt))
      go (responded true status) h ih = rw h (omega arith, (status, refl, h), refl)
      go (responded false status) h ih = rw h (later attempt _ _ (ih last_error (some status)))
      go (threw message) h ih = rw h (later attempt _ _ (ih (some message) last_status))

  -- A delivery always ends, and by one row. Where one of the first `maxAttempts` attempts would
  -- succeed, the first that does is the last that is made, the row says so with its status, and
  -- nothing is reported; where none would, all of them are made, the row is that of a failure with
  -- all attempts, and one error event is written.
  pub deliver_with_retry-Recorded :
      Recorded 0 (first_ok opts.max_attempts 0) (sum (deliver_with_retry opts not_ok clip answers))
  unfolding deliver_with_retry
  deliver_with_retry-Recorded = attempt_from-Recorded opts.max_attempts 0 none none (omega arith)
