-- ===== src/SensorList/Visit.antt =====
-- `sensors_list_foreach_api`: a loop over a table from which its own body removes rows.
use akm_dash.Common.{
  ℕ, zero, suc, ◌+◌, ◌<◌, ◌≡◌, ◌≢◌, refl, ap, ◌∙◌, sym, ℤ, pos, ◌==ℤ◌, true, false, Option, none,
  some, List, [], ◌∷◌, ◌++◌, arith, length, get_or, ltb, if◌then◌else◌, lt→ltb, le→ltb, Bool-cases,
  inl, inr, append_assoc, length-append,
}
use akm_dash.SensorList.{Sensor, ApiPtr, SensorTable, deregister, foreach_from, foreach_api}
use akm_dash.SensorList.Rows.{
  Row, contents, IsValid, remove, length-contents, Distinct, remove_middle,
}
use akm_dash.SensorList.Removal.{deregister_refines}
use akm_dash.SensorList.Middle.{get_or-rows, remove_registered, Distinct-without, Distinct-middle}

module _ {W : Type 0} (f : ApiPtr → W → ℤ × W) where
  -- One visit to each row in order; the rows whose visit returned 0 are kept.
  abbrev pub visit : List Row → W → List Row × W
  visit [] w = ([], w)
  visit ((s, p) ∷ r) w =
      let (rc, w') = f p w in
      let (kept, w'') = visit r w' in (if rc ==ℤ pos 0 then (s, p) ∷ kept else kept, w'')

  -- The run ends in a well-formed table with these rows, and with this state of the rest.
  abbrev pub Ends : Option (SensorTable × W) → List Row → W → Type 0
  Ends o r w = (s : SensorTable) × (o ≡ some (s, w)) × IsValid s × (contents s ≡ r)

  foreach_stop :
      (fuel i : ℕ) (s : SensorTable) (w : W)
      → ltb i s.number_of_sensors ≡ false
      → foreach_from f (suc fuel) i s w ≡ some (s, w)
  unfolding foreach_from
  foreach_stop fuel i s w h = ground arith

  foreach_keep :
      (fuel i : ℕ) (s : SensorTable) (w : W)
      → ltb i s.number_of_sensors ≡ true
      → ((f (get_or s.sensor_apis i 0) w).0 ==ℤ pos 0) ≡ true
      → foreach_from f (suc fuel) i s w
        ≡ foreach_from f fuel (suc i) s (f (get_or s.sensor_apis i 0) w).1
  unfolding foreach_from
  foreach_keep fuel i s w h k = ground arith

  foreach_drop :
      (fuel i : ℕ) (s : SensorTable) (w : W)
      → ltb i s.number_of_sensors ≡ true
      → ((f (get_or s.sensor_apis i 0) w).0 ==ℤ pos 0) ≡ false
      → foreach_from f (suc fuel) i s w
        ≡ foreach_from f fuel i
            (deregister (get_or s.sensor_apis i 0) s)
            (f (get_or s.sensor_apis i 0) w).1
  unfolding foreach_from
  foreach_drop fuel i s w h k = ground arith

  visit_keep :
      (x : Sensor) (p : ApiPtr) (todo : List Row) (w : W)
      → ((f p w).0 ==ℤ pos 0) ≡ true
      → visit ((x, p) ∷ todo) w ≡ ((x, p) ∷ (visit todo (f p w).1).0, (visit todo (f p w).1).1)
  visit_keep x p todo w h = ground arith

  visit_drop :
      (x : Sensor) (p : ApiPtr) (todo : List Row) (w : W)
      → ((f p w).0 ==ℤ pos 0) ≡ false
      → visit ((x, p) ∷ todo) w ≡ visit todo (f p w).1
  visit_drop x p todo w h = ground arith

  visit_from :
      (fuel i : ℕ) (done todo : List Row) (s : SensorTable) (w : W)
      → length done ≡ i
      → length todo < fuel
      → IsValid s
      → contents s ≡ done ++ todo
      → Distinct (done ++ todo)
      → Ends (foreach_from f fuel i s w) (done ++ (visit todo w).0) (visit todo w).1
  visit_from zero i done todo s w l h v e d = absurd (omega arith)
  visit_from (suc fuel) i done [] s w l h v e d =
      let n : s.number_of_sensors ≡ i =
        omega (arith, length-contents v, ap length e, length-append {0} done []) in
      (s, foreach_stop fuel i s w (le→ltb i s.number_of_sensors (omega arith)), v, e)
  visit_from (suc fuel) i done ((x, p) ∷ todo) s w l h v e d =
      elim (Bool-cases ((f p w).0 ==ℤ pos 0)) [
        | inl good ↦
            (let rest =
                visit_from fuel (suc i) (done ++ (x, p) ∷ []) todo s (f p w).1
                  (omega (arith, length-append {0} done ((x, p) ∷ []))) (omega arith) v
                  (e ∙ sym (append_assoc done ((x, p) ∷ []) todo)) (rw append_assoc d) in
              (
                rest.0,
                foreach_keep fuel i s w inside (rw here good)
                    ∙ ap (λ q. foreach_from f fuel (suc i) s (f q w).1) here
                    ∙ rest.1
                    ∙ ap (λ (r : List Row × W). some (rest.0, r.1))
                        (sym (visit_keep x p todo w good)),
                rest.2,
                rest.3
                    ∙ append_assoc done ((x, p) ∷ []) (visit todo (f p w).1).0
                    ∙ ap (λ (r : List Row × W). done ++ r.0) (sym (visit_keep x p todo w good)),
              ))
        | inr bad ↦
            (let removed = deregister_refines p v in
              let rest =
                visit_from fuel i done todo (deregister p s) (f p w).1 l (omega arith) removed.0
                  (removed.1
                    ∙ ap (remove p) e
                    ∙ remove_middle p done todo x (Distinct-middle done todo x p d))
                  (Distinct-without done todo (x, p) d) in
              (
                rest.0,
                foreach_drop fuel i s w inside (rw here bad)
                    ∙ ap (λ q. foreach_from f fuel i (deregister q s) (f q w).1) here
                    ∙ rest.1
                    ∙ ap (λ (r : List Row × W). some (rest.0, r.1))
                        (sym (visit_drop x p todo w bad)),
                rest.2,
                rest.3 ∙ ap (λ (r : List Row × W). done ++ r.0) (sym (visit_drop x p todo w bad)),
              ))
      ]
    where
      here : get_or s.sensor_apis i 0 ≡ p
      here = get_or-rows s.number_of_sensors i s.sensors s.sensor_apis done todo x p e l

      inside : ltb i s.number_of_sensors ≡ true
      inside =
          lt→ltb i s.number_of_sensors
            (omega (arith, length-contents v, ap length e, length-append {0} done ((x, p) ∷ todo)))

  -- On a well-formed table where no function table is registered twice, `sensors_list_foreach_api`
  -- ends. It calls the callback once for each registered sensor, in the order of registration, and
  -- leaves exactly the sensors whose call returned 0, in their order, in a well-formed table. The
  -- callback itself does not change the table.
  pub foreach_api_visits :
      {s : SensorTable} (w : W)
      → IsValid s
      → Distinct (contents s)
      → Ends (foreach_api f s w) (visit (contents s) w).0 (visit (contents s) w).1
  unfolding foreach_api
  foreach_api_visits {s} w v d =
      visit_from (suc s.number_of_sensors) 0 [] (contents s) s w refl
        (omega (arith, length-contents v)) v refl d

  deregister_shrinks :
      (i : ℕ) (s : SensorTable)
      → IsValid s
      → i < s.number_of_sensors
      → suc (deregister (get_or s.sensor_apis i 0) s).number_of_sensors ≡ s.number_of_sensors
  deregister_shrinks i s v h =
      let removed = deregister_refines (get_or s.sensor_apis i 0) v in
      omega (
        arith,
        length-contents removed.0,
        ap length removed.1,
        remove_registered s.number_of_sensors i s.sensors s.sensor_apis h
            (omega (arith, v.sensors_full, v.bounded)) (omega (arith, v.apis_full, v.bounded)),
      )

  foreach_from_ends :
      (fuel i k : ℕ) (s : SensorTable) (w : W)
      → i + k ≡ s.number_of_sensors
      → k < fuel
      → IsValid s
      → foreach_from f fuel i s w ≢ none
  foreach_from_ends zero i k s w e h v = absurd (omega arith)
  foreach_from_ends (suc fuel) i zero s w e h v =
      rw (foreach_stop fuel i s w (le→ltb i s.number_of_sensors (omega arith))) (λ q. cc)
  foreach_from_ends (suc fuel) i (suc k) s w e h v =
      let inside = lt→ltb i s.number_of_sensors (omega arith) in
      elim (Bool-cases ((f (get_or s.sensor_apis i 0) w).0 ==ℤ pos 0)) [
        | inl good ↦
            rw (foreach_keep fuel i s w inside good)
              (foreach_from_ends fuel (suc i) k s _ (omega arith) (omega arith) v)
        | inr bad ↦ rw (foreach_drop fuel i s w inside bad) (
            foreach_from_ends fuel i k (deregister (get_or s.sensor_apis i 0) s) _
              (omega (arith, deregister_shrinks i s v)) (omega arith)
              (deregister_refines (get_or s.sensor_apis i 0) v).0)
      ]

  -- `sensors_list_foreach_api` ends on every well-formed table, whatever the callback returns and
  -- also where a function table is registered twice: each round moves on or removes a row.
  pub foreach_api_ends : {s : SensorTable} (w : W) → IsValid s → foreach_api f s w ≢ none
  unfolding foreach_api
  foreach_api_ends {s} w v =
      foreach_from_ends (suc s.number_of_sensors) 0 s.number_of_sensors s w (omega arith)
        (omega arith) v
