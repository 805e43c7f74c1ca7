-- ===== src/Apds970x/Band.antt =====
-- The thresholds of sensors/apds970x.c over any calls of the driver.
use akm_dash.Common.{
  ℕ, zero, suc, ◌≡◌, refl, sym, ap, ℤ, pos, negsuc, ◌==ℤ◌, is_neg, is_pos, ltb, Bool, true, false,
  not, ◌&&◌, ◌⊎◌, inl, inr, Option, none, some, List, [], ◌∷◌, ◌++◌, length, ◌==◌, Bool-cases,
  if◌then◌else◌,
}
use mathlib.Core.Path.{subst}
use akm_dash.Config.Text.{Bytes, atoi}
use akm_dash.Select.{get_fd}
use akm_dash.Sysfs.{decimal_long}
use akm_dash.Proximity.{InputEvent, ev_syn, ev_abs, abs_distance}
use akm_dash.Apds970x.{
  ApdsDesc, un_init, ev_msc, msc_raw, one_less, with_defaults, with_text, with_file, with_path,
  init_threshold_members, write_threshold, is_empty, change_threshold, store_dist, handle, read,
  activate, set_delay, close,
}

-- A call of the driver, with what it finds.
pub data Op : Type 0 where
  activating : ℤ → Bool → Bool → Option Bytes → (Bytes → Option (Option Bytes)) → ℤ → Op
  delaying : ℤ → Op
  reading : (Bytes → Bool) → List InputEvent → Op
  closing : Op

unfoldable pub perform : Op → ApdsDesc → ApdsDesc
perform (activating opened first second phys file enable) d =
    (activate opened first second phys file enable d).1
perform (delaying ns) d = (set_delay ns d).1
perform (reading writable es) d = read writable es d
perform closing d = close d

abbrev pub run : List Op → ApdsDesc → ApdsDesc
run [] d = d
run (o ∷ os) d = run os (perform o d)

abbrev text_of : ℕ → Bytes
text_of n = decimal_long (pos n) ++ 0 ∷ []

-- Each text is that of one of the two thresholds.
abbrev pub AllWritten : ℕ → List (Bytes × Bytes) → Type 0
AllWritten n [] = Unit
AllWritten n ((path, text) ∷ ws) = ((text ≡ text_of n) ⊎ (text ≡ text_of (suc n))) × AllWritten n ws

-- The thresholds are not yet known and nothing was written; or they are `n` and `n + 1`.
abbrev pub IsBand : ApdsDesc → Type 0
IsBand d =
    ((d.th_not_det ≡ un_init) × ((d.th_path ≡ []) × (d.writes ≡ [])))
    ⊎ ((n : ℕ) × ((d.th_det ≡ pos n) × ((d.th_not_det ≡ pos (suc n)) × AllWritten n d.writes)))

AllWritten-append :
    (n : ℕ) (ws : List (Bytes × Bytes)) (path text : Bytes)
    → AllWritten n ws
    → (text ≡ text_of n) ⊎ (text ≡ text_of (suc n))
    → AllWritten n (ws ++ (path, text) ∷ [])
AllWritten-append n [] path text k h = (h, tt)
AllWritten-append n (w ∷ ws) path text (k, ks) h = (k, AllWritten-append n ws path text ks h)

-- Nothing was written so far, and the thresholds become a band.
with_text-IsBand : (buf : Bytes) (d : ApdsDesc) → d.writes ≡ [] → IsBand (with_text buf d)
unfolding with_text one_less
with_text-IsBand buf d blank = by_value (atoi buf) refl
  where
    by_value : (v : ℤ) → atoi buf ≡ v → IsBand (with_text buf d)
    by_value (pos zero) e = rw e (inr (0, (refl, (refl, subst (AllWritten 0) (sym blank) tt))))
    by_value (pos (suc n)) e = rw e (inr (n, (refl, (refl, subst (AllWritten n) (sym blank) tt))))
    by_value (negsuc n) e = rw e (inr (0, (refl, (refl, subst (AllWritten 0) (sym blank) tt))))

with_defaults-IsBand : (d : ApdsDesc) → d.writes ≡ [] → IsBand (with_defaults d)
unfolding with_defaults one_less
with_defaults-IsBand d blank = inr (4, (refl, (refl, subst (AllWritten 4) (sym blank) tt)))

with_file-IsBand :
    (buf : Bytes) (file : Option (Option Bytes)) (d : ApdsDesc)
    → d.writes ≡ []
    → IsBand (with_file buf file d)
unfolding with_file
with_file-IsBand buf none d w = with_defaults-IsBand d w
with_file-IsBand buf (some none) d w = with_defaults-IsBand d w
with_file-IsBand buf (some (some bytes)) d w = with_text-IsBand _ d w

with_path-IsBand :
    (phys : Option Bytes) (file : Bytes → Option (Option Bytes)) (d : ApdsDesc)
    → d.writes ≡ []
    → IsBand (with_path phys file d)
unfolding with_path
with_path-IsBand none file d w = with_defaults-IsBand d w
with_path-IsBand (some phys) file d w = with_file-IsBand phys _ _ w

init_threshold_members-IsBand :
    (phys : Option Bytes) (file : Bytes → Option (Option Bytes)) (d : ApdsDesc)
    → IsBand d
    → IsBand (init_threshold_members phys file d)
unfolding init_threshold_members
init_threshold_members-IsBand phys file d (inl (u, (p, w))) =
    let b : (d.th_not_det ==ℤ un_init) ≡ true = ap (λ v. v ==ℤ un_init) u in
    rw b (with_path-IsBand phys file d w)
init_threshold_members-IsBand phys file d (inr (n, (e, (f, k)))) =
    let b : (d.th_not_det ==ℤ un_init) ≡ false = ap (λ v. v ==ℤ un_init) f in
    rw b (inr (n, (e, (f, k))))

write_threshold-IsBand :
    (th_new : ℤ) (d : ApdsDesc) (n : ℕ)
    → d.th_det ≡ pos n
    → d.th_not_det ≡ pos (suc n)
    → AllWritten n d.writes
    → (th_new ≡ pos n) ⊎ (th_new ≡ pos (suc n))
    → IsBand (write_threshold th_new d)
unfolding write_threshold
write_threshold-IsBand th_new d n e f k h =
    elim (Bool-cases
      (ltb 0 (length (decimal_long th_new)) && ltb (length (decimal_long th_new)) 10)) [
        | inl fits ↦
            rw fits (inr (n, (e, (f, AllWritten-append n d.writes d.th_path _ k (as_text h)))))
        | inr long ↦ rw long (inr (n, (e, (f, k))))
      ]
  where
    as_text :
        (th_new ≡ pos n) ⊎ (th_new ≡ pos (suc n))
        → (decimal_long th_new ++ 0 ∷ [] ≡ text_of n)
          ⊎ (decimal_long th_new ++ 0 ∷ [] ≡ text_of (suc n))
    as_text (inl g) = inl (ap (λ v. decimal_long v ++ 0 ∷ []) g)
    as_text (inr g) = inr (ap (λ v. decimal_long v ++ 0 ∷ []) g)

of_two :
    {n : ℕ} (b : Bool) (p q : ℤ)
    → p ≡ pos (suc n)
    → q ≡ pos n
    → ((if b then p else q) ≡ pos n) ⊎ ((if b then p else q) ≡ pos (suc n))
of_two true p q e f = inr e
of_two false p q e f = inl f

change_threshold-IsBand :
    (writable : Bytes → Bool) (d : ApdsDesc) → IsBand d → IsBand (change_threshold writable d)
unfolding change_threshold is_empty
change_threshold-IsBand writable d (inl (u, (p, w))) =
    let b : is_empty d.th_path ≡ true = ap is_empty p in rw b (inl (u, (p, w)))
change_threshold-IsBand writable d (inr (n, (e, (f, k)))) = elim (Bool-cases (is_empty d.th_path)) [
  | inl x ↦ rw x (inr (n, (e, (f, k))))
  | inr x ↦ elim (Bool-cases (writable d.th_path)) [
    | inr y ↦ rw (x, y) (inr (n, (e, (f, k))))
    | inl y ↦ rw (x, y) (write_threshold-IsBand _ d n e f k (of_two d.distance _ _ f e))
  ]
]

store_dist-IsBand :
    (writable : Bytes → Bool) (value : ℤ) (d : ApdsDesc)
    → IsBand d
    → IsBand (store_dist writable value d)
unfolding store_dist
store_dist-IsBand writable value d k = change_threshold-IsBand writable _ k

handle-IsBand :
    (writable : Bytes → Bool) (e : InputEvent) (d : ApdsDesc)
    → IsBand d
    → IsBand (handle writable e d)
unfolding handle
handle-IsBand writable e d k = elim (Bool-cases (e.type == ev_msc)) [
  | inl m ↦ elim (Bool-cases (e.code == msc_raw)) [
    | inl c ↦ rw (m, c) (store_dist-IsBand writable e.value d k)
    | inr c ↦ rw (m, c) k
  ]
  | inr m ↦ elim (Bool-cases (e.type == ev_abs)) [
    | inl b ↦ elim (Bool-cases (e.code == abs_distance)) [
      | inl c ↦ rw (m, b, c) (store_dist-IsBand writable e.value d k)
      | inr c ↦ rw (m, b, c) k
    ]
    | inr b ↦ elim (Bool-cases (e.type == ev_syn)) [
      | inl s ↦ rw (m, b, s) k
      | inr s ↦ rw (m, b, s) k
    ]
  ]
]

read-IsBand :
    (writable : Bytes → Bool) (es : List InputEvent) (d : ApdsDesc)
    → IsBand d
    → IsBand (read writable es d)
unfolding read
read-IsBand writable [] d k = k
read-IsBand writable (e ∷ es) d k = read-IsBand writable es _ (handle-IsBand writable e d k)

activate-IsBand :
    (opened : ℤ) (first second : Bool) (phys : Option Bytes) (file : Bytes → Option (Option Bytes))
    → (enable : ℤ) (d : ApdsDesc) → IsBand d
    → IsBand ((activate opened first second phys file enable d).1)
unfolding activate
activate-IsBand opened first second phys file enable d k =
    elim (Bool-cases (not (enable ==ℤ pos 0) && is_neg (get_fd d.select_worker))) [
      | inl on ↦ elim (Bool-cases (is_neg opened)) [
        | inl x ↦ rw (on, x) k
        | inr x ↦ rw (on, x) (init_threshold_members-IsBand phys file d k)
      ]
      | inr on ↦ elim (Bool-cases (enable ==ℤ pos 0 && is_pos (get_fd d.select_worker))) [
        | inl off ↦ rw (on, off) k
        | inr off ↦ rw (on, off) k
      ]
    ]

perform-IsBand : (o : Op) (d : ApdsDesc) → IsBand d → IsBand (perform o d)
unfolding perform set_delay close
perform-IsBand (activating opened first second phys file enable) d k =
    activate-IsBand opened first second phys file enable d k
perform-IsBand (delaying ns) d k = k
perform-IsBand (reading writable es) d k = read-IsBand writable es d k
perform-IsBand closing d k = k

-- From the static state on, whatever the calls, the text of the threshold and the events: the
-- thresholds are not known and nothing was written, or they are some `n` and `n + 1`, none of them
-- below 0, and each text that was written is that of one of the two, with a 0 behind it.
pub run-IsBand :
    (os : List Op) (d : ApdsDesc)
    → d.th_not_det ≡ un_init
    → d.th_path ≡ []
    → d.writes ≡ []
    → IsBand (run os d)
run-IsBand os d u p w = go os d (inl (u, (p, w)))
  where
    go : (os : List Op) (d : ApdsDesc) → IsBand d → IsBand (run os d)
    go [] d k = k
    go (o ∷ os) d k = go os (perform o d) (perform-IsBand o d k)
