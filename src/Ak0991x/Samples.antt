-- ===== src/Ak0991x/Samples.antt =====
-- `ak0991x_read` of sensors/ak0991xna.c: what the wrapper and the library get.
use akm_dash.Common.{
  ℕ, ◌≡◌, refl, sym, ◌∙◌, ap, ℤ, Bool, true, false, ◌&&◌, List, [], ◌∷◌, ◌++◌, append_assoc,
  append-nil, set, ◌==◌, ==_iff, Bool-cases, inl, inr, if◌then◌else◌,
}
use akm_dash.Proximity.{InputEvent, ev_syn}
use akm_dash.Ak0991x.{
  LibCall, set_vector, SensorData, AkDesc, ev_msc, magv_x, magv_y, magv_z, magv_status, call,
  report, take_in, handle,
}

-- The value of the last event with this code of a message, or `v` where there is none.
abbrev pub latest : ℕ → List InputEvent → ℤ → ℤ
latest code [] v = v
latest code (e ∷ es) v =
    latest code es (if (e.type == ev_msc) && (e.code == code) then e.value else v)

module _ (lib : List LibCall → ℤ) where
  -- The driver has this vector and this status.
  abbrev Has : AkDesc → ℤ → ℤ → ℤ → ℤ → Type 0
  Has d x y z s = (d.data_xyz ≡ x ∷ y ∷ z ∷ []) × (d.status ≡ s)

  report-Has : (d : AkDesc) (x y z s : ℤ) → Has d x y z s → Has (report lib d) x y z s
  unfolding report call
  report-Has d x y z s h = h

  take_in-Has :
      (e : InputEvent) (d : AkDesc) (x y z s : ℤ)
      → Has d x y z s
      → let value : ℕ → ℤ → ℤ = λ code v. if e.code == code then e.value else v in
        Has (take_in e d) (value magv_x x) (value magv_y y) (value magv_z z) (value magv_status s)
  unfolding take_in
  take_in-Has e d x y z s (xyz, st) = elim (Bool-cases (e.code == magv_status)) [
    | inl k ↦ let c : e.code ≡ magv_status = (==_iff e.code magv_status).0 k in rw c (xyz, refl)
    | inr n₃ ↦ elim (Bool-cases (e.code == magv_x)) [
      | inl k ↦
          let c : e.code ≡ magv_x = (==_iff e.code magv_x).0 k in
          rw c (ap (λ w. set w 0 e.value) xyz, st)
      | inr n₀ ↦ elim (Bool-cases (e.code == magv_y)) [
        | inl k ↦
            let c : e.code ≡ magv_y = (==_iff e.code magv_y).0 k in
            rw c (ap (λ w. set w 1 e.value) xyz, st)
        | inr n₁ ↦ elim (Bool-cases (e.code == magv_z)) [
          | inl k ↦
              let c : e.code ≡ magv_z = (==_iff e.code magv_z).0 k in
              rw c (ap (λ w. set w 2 e.value) xyz, st)
          | inr n₂ ↦ rw (n₃, n₀, n₁, n₂) (xyz, st)
        ]
      ]
    ]
  ]

  step-Has :
      (e : InputEvent) (d : AkDesc) (x y z s : ℤ)
      → Has d x y z s
      → let value : ℕ → ℤ → ℤ =
          λ code v. if (e.type == ev_msc) && (e.code == code) then e.value else v in
        Has
          (if e.type == ev_msc then take_in e d else d)
          (value magv_x x)
          (value magv_y y)
          (value magv_z z)
          (value magv_status s)
  step-Has e d x y z s h = elim (Bool-cases (e.type == ev_msc)) [
    | inr other ↦ rw other h
    | inl msc ↦ rw msc (take_in-Has e d x y z s h)
  ]

  reported-Has :
      (e : InputEvent) (d : AkDesc) (x y z s : ℤ)
      → Has d x y z s
      → Has (if e.type == ev_syn then report lib d else d) x y z s
  reported-Has e d x y z s h = elim (Bool-cases (e.type == ev_syn)) [
    | inl syn ↦ rw syn (report-Has d x y z s h)
    | inr other ↦ rw other h
  ]

  handle-Has :
      (es : List InputEvent) (d : AkDesc) (x y z s : ℤ)
      → Has d x y z s
      → Has
          (handle lib es d)
          (latest magv_x es x)
          (latest magv_y es y)
          (latest magv_z es z)
          (latest magv_status es s)
  unfolding handle
  handle-Has [] d x y z s h = h
  handle-Has (e ∷ es) d x y z s h =
      handle-Has es _ _ _ _ _ (step-Has e _ x y z s (reported-Has e d x y z s h))

  handle-append :
      (es fs : List InputEvent) (d : AkDesc)
      → handle lib (es ++ fs) d ≡ handle lib fs (handle lib es d)
  unfolding handle
  handle-append [] fs d = refl
  handle-append (e ∷ es) fs d = handle-append es fs _

  -- What was sent and called stays, at the end of the one list and at the start of the other.
  record Extends (d d' : AkDesc) : Type 0 where
    more : List SensorData
    calls : List LibCall
    sent_more : d'.sent ≡ d.sent ++ more
    calls_more : d'.calls ≡ calls ++ d.calls
    delay : d'.applied_delay_ms ≡ d.applied_delay_ms

  Extends-same :
      (d d' : AkDesc)
      → d'.sent ≡ d.sent
      → d'.calls ≡ d.calls
      → d'.applied_delay_ms ≡ d.applied_delay_ms
      → Extends d d'
  Extends-same d d' s c k = record {
    more = [];
    calls = [];
    sent_more = s ∙ sym (append-nil d.sent);
    calls_more = c;
    delay = k;
  }

  Extends-trans : (d e f : AkDesc) → Extends d e → Extends e f → Extends d f
  Extends-trans d e f h k = record {
    more = h.more ++ k.more;
    calls = k.calls ++ h.calls;
    sent_more = k.sent_more ∙ ap (λ w. w ++ k.more) h.sent_more ∙ append_assoc d.sent h.more k.more;
    calls_more =
        k.calls_more
        ∙ ap (λ w. k.calls ++ w) h.calls_more
        ∙ sym (append_assoc k.calls h.calls d.calls);
    delay = k.delay ∙ h.delay;
  }

  report-Extends : (d : AkDesc) → Extends d (report lib d)
  unfolding report call
  report-Extends d = record {
    more = record { data_xyz = d.data_xyz; status = d.status; delay = d.applied_delay_ms } ∷ [];
    calls = set_vector d.data_xyz d.status ∷ [];
    sent_more = refl;
    calls_more = refl;
    delay = refl;
  }

  take_in-Extends : (e : InputEvent) (d : AkDesc) → Extends d (take_in e d)
  unfolding take_in
  take_in-Extends e d = elim (Bool-cases (e.code == magv_status)) [
    | inl k ↦ rw k (Extends-same d _ refl refl refl)
    | inr n₃ ↦ elim (Bool-cases (e.code == magv_x)) [
      | inl k ↦ rw (n₃, k) (Extends-same d _ refl refl refl)
      | inr n₀ ↦ elim (Bool-cases (e.code == magv_y)) [
        | inl k ↦ rw (n₃, n₀, k) (Extends-same d _ refl refl refl)
        | inr n₁ ↦ elim (Bool-cases (e.code == magv_z)) [
          | inl k ↦ rw (n₃, n₀, n₁, k) (Extends-same d _ refl refl refl)
          | inr n₂ ↦ rw (n₃, n₀, n₁, n₂) (Extends-same d _ refl refl refl)
        ]
      ]
    ]
  ]

  step-Extends :
      (b c : Bool) (e : InputEvent) (d : AkDesc)
      → let d₁ : AkDesc = if b then report lib d else d in
        Extends d (if c then take_in e d₁ else d₁)
  step-Extends true true e d =
      Extends-trans d (report lib d) _ (report-Extends d) (take_in-Extends e (report lib d))
  step-Extends true false e d = report-Extends d
  step-Extends false true e d = take_in-Extends e d
  step-Extends false false e d = Extends-same d d refl refl refl

  handle-Extends : (es : List InputEvent) (d : AkDesc) → Extends d (handle lib es d)
  unfolding handle
  handle-Extends [] d = Extends-same d d refl refl refl
  handle-Extends (e ∷ es) d =
      Extends-trans d _ _ (step-Extends (e.type == ev_syn) (e.type == ev_msc) e d)
        (handle-Extends es _)

  handle-report :
      (e : InputEvent) (es : List InputEvent) (d : AkDesc)
      → e.type ≡ ev_syn
      → handle lib (e ∷ es) d ≡ handle lib es (report lib d)
  unfolding handle
  handle-report e es d syn = rw syn refl

  report-sent :
      (d : AkDesc) (v : List ℤ) (s ms : ℤ)
      → d.data_xyz ≡ v
      → d.status ≡ s
      → d.applied_delay_ms ≡ ms
      → (report lib d).sent ≡ d.sent ++ record { data_xyz = v; status = s; delay = ms } ∷ []
  unfolding report call
  report-sent d v s ms e f g = rw (e, f, g) refl

  report-calls :
      (d : AkDesc) (v : List ℤ) (s : ℤ)
      → d.data_xyz ≡ v
      → d.status ≡ s
      → (report lib d).calls ≡ set_vector v s ∷ d.calls
  unfolding report call
  report-calls d v s e f = rw (e, f) refl

  -- At each synchronisation event, the loop of `ak0991x_read` gives the wrapper and the library one vector
  -- with one status: in each component the value of the last event with its code before, or
  -- the one known before the loop. What it gave for the events before stands in front of it, and
  -- what it gives for those behind does not change it. The rate is the one that was asked for.
  pub handle-sample :
      (before : List InputEvent) (e : InputEvent) (behind : List InputEvent) (d : AkDesc)
      (x y z : ℤ)
      → d.data_xyz ≡ x ∷ y ∷ z ∷ []
      → e.type ≡ ev_syn
      → let v = latest magv_x before x ∷ latest magv_y before y ∷ latest magv_z before z ∷ [] in
        let s = latest magv_status before d.status in
        let sd : SensorData = record { data_xyz = v; status = s; delay = d.applied_delay_ms } in
        let d₁ = handle lib before d in
        let d₂ = handle lib (before ++ e ∷ behind) d in
        (more : List SensorData) × ((calls : List LibCall) × ((d₂.sent ≡ d₁.sent ++ sd ∷ more)
            × (d₂.calls ≡ calls ++ set_vector v s ∷ d₁.calls)))
  handle-sample before e behind d x y z known syn =
      let d₁ = handle lib before d in
      let (xyz, status) = handle-Has before d x y z d.status (known, refl) in
      let delay = (handle-Extends before d).delay in
      let later = handle-Extends behind (report lib d₁) in
      let split = handle-append before (e ∷ behind) d ∙ handle-report e behind d₁ syn in
      (
        later.more,
        (
          later.calls,
          (
            ap (λ w. w.sent) split
                ∙ later.sent_more
                ∙ ap (λ w. w ++ later.more) (report-sent d₁ _ _ _ xyz status delay)
                ∙ append_assoc d₁.sent _ later.more,
            ap (λ w. w.calls) split
                ∙ later.calls_more
                ∙ ap (λ w. later.calls ++ w) (report-calls d₁ _ _ xyz status),
          ),
        ),
      )
