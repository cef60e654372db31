-- ===== src/Common/Http.antt =====
-- common/src/http.rs: `post_string` outside a browser. The HTTP client is a parameter.
use verse_entrance_server.Base.{
  ℕ, ◌≡◌, ap, ◌∙◌, inl, inr, Bool, true, ◌&&◌, Option, none, some, leb, if◌then◌else◌, Bool-cases,
  Option-cases, Bytes,
}
use verse_entrance_server.Common.Errors.{AppError, http_error}

-- An answer: its status, and its text, `none` if it cannot be read.
pub record Reply : Type 0 where
  pub status : ℕ
  pub body : Option Bytes

pub data Posted : Type 0 where
  posted : Bytes → Posted
  failed : AppError → Posted
  broken : Posted

-- `StatusCode::is_success`
abbrev pub is_success : ℕ → Bool
is_success status = leb 200 status && leb status 299

-- `send` is `none` if the request cannot be sent; `file` and `line` stand for the place in the source.
module _ (send : Bytes → Bytes → Bytes → Option Reply) (file : Bytes) (line : ℕ) where
  unfoldable pub post_string : Bytes → Bytes → Bytes → Posted
  unfolding http_error
  post_string url body content_type = elim (send url body content_type) [
    | none ↦ broken
    | some r ↦
        if is_success r.status
        then (elim r.body [ none ↦ broken | some text ↦ posted text ])
        else failed (http_error r.status file line)
  ]

  failed-not-posted : {e : AppError} {text : Bytes} → failed e ≡ posted text → ⊥
  failed-not-posted e = cc

  -- A text comes from an answer that was a success.
  post_string_sound :
      (url body content_type text : Bytes)
      → post_string url body content_type ≡ posted text
      → (r : Reply) × (send url body content_type ≡ some r)
        × (is_success r.status ≡ true)
        × (r.body ≡ some text)
  unfolding post_string
  post_string_sound url body content_type text e =
      elim (Option-cases (send url body content_type)) [
        | inl f ↦ absurd (broken-not-posted (rw (f, post_string) at e))
        | inr (r, f) ↦ elim (Bool-cases (is_success r.status)) [
          | inr other ↦ absurd (failed-not-posted (rw (f, other, post_string) at e))
          | inl fine ↦ elim (Option-cases r.body) [
            | inl g ↦ absurd (broken-not-posted (rw (f, fine, g, post_string) at e))
            | inr (t, g) ↦ (
              r,
              f,
              fine,
              g ∙ ap (λ (x : Bytes). some x) (posted_inj (rw (f, fine, g, post_string) at e)),
            )
          ]
        ]
      ]
    where
      broken-not-posted : {x : Bytes} → broken ≡ posted x → ⊥
      broken-not-posted k = cc

      posted_inj : {x y : Bytes} → posted x ≡ posted y → x ≡ y
      posted_inj k = cc
