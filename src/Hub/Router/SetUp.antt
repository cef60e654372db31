-- ===== src/Hub/Router/SetUp.antt =====
-- The end of `setup_pc` and its timeout in `enter` (hubserv/src/entrance_server_router.rs).
use verse_entrance_server.Base.{
  ℕ, ◌≡◌, refl, ap, ◌∙◌, inl, inr, Bool, true, false, Option, none, some, if◌then◌else◌, Bool-cases,
  Bytes,
}
use verse_entrance_server.Hub.Router.{Setup, answer, refused, timed_out}

-- What the WebRTC library makes of the calls of `setup_pc`: whether a description is taken, and the
-- description that it gives.
pub record Negotiation : Type 0 where
  pub set_remote_description : Bool
  pub create_answer : Option Bytes
  pub set_local_description : Bytes → Bool
  pub local_description : Bytes → Option Bytes

abbrev pub described : Option Bytes → Setup
described none = refused 500
described (some sdp) = answer sdp

abbrev pub answer_with : Negotiation → Option Bytes → Setup
answer_with n none = refused 500
answer_with n (some a) =
    if n.set_local_description a then described (n.local_description a) else refused 500

-- `setup_pc`
unfoldable pub setup_pc : Negotiation → Setup
setup_pc n = if n.set_remote_description then answer_with n n.create_answer else refused 400

-- The timeout of `enter`.
unfoldable pub with_timeout : Bool → Setup → Setup
with_timeout in_time setup = if in_time then setup else timed_out

pub answer_inj : {a b : Bytes} → answer a ≡ answer b → a ≡ b
answer_inj {a} e = ap (sdp_of a) e
  where
    sdp_of : Bytes → Setup → Bytes
    sdp_of d (answer sdp) = sdp
    sdp_of d (refused code) = d
    sdp_of d timed_out = d

pub refused-answer : {code : ℕ} {sdp : Bytes} → refused code ≡ answer sdp → ⊥
refused-answer e = cc

timed_out-answer : {sdp : Bytes} → timed_out ≡ answer sdp → ⊥
timed_out-answer e = cc

-- The negotiation went well, and gave a description.
pub record Negotiated (n : Negotiation) (sdp : Bytes) : Type 0 where
  pub taken : n.set_remote_description ≡ true
  pub created : Bytes
  pub creates : n.create_answer ≡ some created
  pub kept : n.set_local_description created ≡ true
  pub gives : n.local_description created ≡ some sdp

described-answer : (o : Option Bytes) (sdp : Bytes) → described o ≡ answer sdp → o ≡ some sdp
described-answer none sdp e = absurd (refused-answer e)
described-answer (some a) sdp e = ap (λ (b : Bytes). some b) (answer_inj e)

answer_with-Negotiated :
    (n : Negotiation) (o : Option Bytes) (sdp : Bytes)
    → n.set_remote_description ≡ true
    → n.create_answer ≡ o
    → answer_with n o ≡ answer sdp
    → Negotiated n sdp
answer_with-Negotiated n none sdp t c e = absurd (refused-answer e)
answer_with-Negotiated n (some a) sdp t c e = elim (Bool-cases (n.set_local_description a)) [
  | inl k ↦ record {
    taken = t;
    created = a;
    creates = c;
    kept = k;
    gives = described-answer (n.local_description a) sdp (rw k at e);
  }
  | inr k ↦ absurd (refused-answer (rw k at e))
]

pub setup_pc-Negotiated :
    (n : Negotiation) (sdp : Bytes) → setup_pc n ≡ answer sdp → Negotiated n sdp
unfolding setup_pc
setup_pc-Negotiated n sdp e = elim (Bool-cases n.set_remote_description) [
  | inl t ↦ answer_with-Negotiated n n.create_answer sdp t refl (rw t at e)
  | inr t ↦ absurd (refused-answer (rw t at e))
]

pub Negotiated-setup_pc :
    (n : Negotiation) (sdp : Bytes) → Negotiated n sdp → setup_pc n ≡ answer sdp
unfolding setup_pc
Negotiated-setup_pc n sdp g =
    rw (g.taken) (ap (answer_with n) g.creates ∙ rw (g.kept) (ap described g.gives))

pub with_timeout-answer :
    (b : Bool) (setup : Setup) (sdp : Bytes)
    → with_timeout b setup ≡ answer sdp
    → (b ≡ true) × (setup ≡ answer sdp)
unfolding with_timeout
with_timeout-answer true setup sdp e = (refl, e)
with_timeout-answer false setup sdp e = absurd (timed_out-answer e)
