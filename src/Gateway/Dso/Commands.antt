-- ===== src/Gateway/Dso/Commands.antt =====
-- Which commands the station obeys: `Station::handle` and `Station::command`.
use grid_edge_gateway.Prelude.{
  ℕ, ◌+◌, ◌≤◌, ◌<◌, ◌≡◌, refl, sym, subst, List, [], ◌∷◌, Bool, true, false, ◌==◌, some, arith,
  Bool-cases, ◌⊎◌, inl, inr, ==→eq,
}
use grid_edge_gateway.Prelude.Int.{ℤ}
use grid_edge_gateway.Iec104.Element.{
  Cause, activation, activation_con, deactivation, single_command, setpoint_float, Element,
  single_point, single_point_time, float, float_time, end_of_init, interrogation, clock_sync,
  periodic, background, spontaneous, initialized, request, deactivation_con, activation_termination,
  interrogated, unknown_type, unknown_cause, unknown_common_address, unknown_object_address,
}
use grid_edge_gateway.Iec104.Asdu.{Asdu, InformationObject}
use grid_edge_gateway.Prelude.Doubles.{Doubles}
use grid_edge_gateway.Gateway.Points.{DsoCommands, Snapshot}
use grid_edge_gateway.Gateway.Dso.{
  Station, Served, is_activation, is_deactivation, is_addressed, ioa_dim, ioa_emergency,
  ioa_feed_in_limit, in_percent, lookup, remove, insert, too_late, command, handle, on_element,
  interrogate, executed, refused,
}

is_activation-eq : (c : Cause) → is_activation c ≡ true → c ≡ activation
is_activation-eq activation h = refl
is_activation-eq periodic h = cc
is_activation-eq background h = cc
is_activation-eq spontaneous h = cc
is_activation-eq initialized h = cc
is_activation-eq request h = cc
is_activation-eq activation_con h = cc
is_activation-eq deactivation h = cc
is_activation-eq deactivation_con h = cc
is_activation-eq activation_termination h = cc
is_activation-eq interrogated h = cc
is_activation-eq unknown_type h = cc
is_activation-eq unknown_cause h = cc
is_activation-eq unknown_common_address h = cc
is_activation-eq unknown_object_address h = cc

lookup-insert : (k v : ℕ) (m : List (ℕ × ℕ)) → lookup k (insert k v m) ≡ some v
unfolding lookup insert
lookup-insert k v m = ground arith

in_time : (t now : ℕ) → t ≤ now → now < t + 11000 → too_late (some t) now ≡ false
in_time t now h early = ground arith

out_of_time : (t now : ℕ) → t + 11000 ≤ now → too_late (some t) now ≡ true
out_of_time t now late = ground arith

module _ (doubles : Doubles) where
  -- The command is an activation, the object is not selected or its selection is still fresh.
  abbrev pub IsReleased : ℕ → Asdu → ℕ → Served doubles → Type 0
  IsReleased ioa a now s = (a.cause ≡ activation) × (too_late (lookup ioa s.selected) now ≡ false)

  -- A command changes the operator's demands only as an execution of a released object.
  command_lem :
      (a : Asdu) (ioa : ℕ) (select : Bool) (now : ℕ)
      (apply : DsoCommands doubles → DsoCommands doubles) (s : Served doubles)
      → let s' = (command doubles a ioa select now apply s).1 in
        (s'.commands ≡ s.commands)
        ⊎ ((select ≡ false) × IsReleased ioa a now s × (s'.commands ≡ apply s.commands))
  unfolding command
  command_lem a ioa select now apply s = elim (Bool-cases (is_activation a.cause)) [
    | inr other ↦ rw other (elim (Bool-cases (is_deactivation a.cause)) [
      | inl off ↦ rw off (inl refl)
      | inr wrong ↦ rw wrong (inl refl)
    ])
    | inl act ↦ rw act (elim (Bool-cases select) [
      | inl on ↦ rw on (inl refl)
      | inr direct ↦ rw direct (elim (Bool-cases (too_late (lookup ioa s.selected) now)) [
        | inl late ↦ rw late (inl refl)
        | inr fresh ↦ rw fresh (inr (refl, (is_activation-eq a.cause act, refl), refl))
      ])
    ])
  ]

  -- What may become of the operator's demands when the station handles an ASDU.
  pub data Obeys (station : Station doubles) (a : Asdu) (now : ℕ) (s : Served doubles)
      (c : DsoCommands doubles) : Type 0 where
    keeps : c ≡ s.commands → Obeys station a now s c
    dims :
        (on : Bool) (qualifier : ℕ) (rest : List InformationObject)
        → a.objects ≡ record { ioa = ioa_dim; element = single_command on false qualifier } ∷ rest
        → is_addressed doubles station a ≡ true
        → IsReleased ioa_dim a now s
        → c ≡ record s.commands { dim = on }
        → Obeys station a now s c
    alarms :
        (on : Bool) (qualifier : ℕ) (rest : List InformationObject)
        → a.objects
          ≡ record { ioa = ioa_emergency; element = single_command on false qualifier } ∷ rest
        → is_addressed doubles station a ≡ true
        → IsReleased ioa_emergency a now s
        → c ≡ record s.commands { emergency = on }
        → Obeys station a now s c
    limits :
        (value qualifier : ℕ) (rest : List InformationObject)
        → a.objects
          ≡ record { ioa = ioa_feed_in_limit; element = setpoint_float value false qualifier }
            ∷ rest
        → in_percent value ≡ true
        → is_addressed doubles station a ≡ true
        → IsReleased ioa_feed_in_limit a now s
        → c ≡ record s.commands { feed_in_limit_pct = doubles.of_f32 value }
        → Obeys station a now s c

  on_element-Obeys :
      (station : Station doubles) (snapshot : Snapshot doubles) (now : ℕ) (wall : ℤ) (a : Asdu)
      (s : Served doubles) (ioa : ℕ) (e : Element) (rest : List InformationObject)
      → a.objects ≡ record { ioa = ioa; element = e } ∷ rest
      → is_addressed doubles station a ≡ true
      → Obeys station a now s (on_element doubles station snapshot now wall a ioa e s).1.commands
  unfolding on_element interrogate
  on_element-Obeys station snapshot now wall a s ioa (single_command on select q) rest e addr =
      elim (Bool-cases (ioa == ioa_dim)) [
        | inl dim ↦ rw dim (elim (command_lem a ioa select now (λ c. record c { dim = on }) s) [
          | inl same ↦ keeps same
          | inr (direct, released, changed) ↦
              dims on q rest (rw (sym (==→eq ioa ioa_dim dim), sym direct) e) addr
                (rw (sym (==→eq ioa ioa_dim dim)) released) changed
        ])
        | inr other ↦ rw other (elim (Bool-cases (ioa == ioa_emergency)) [
          | inl alarm ↦
              rw alarm (elim (command_lem a ioa select now (λ c. record c { emergency = on }) s) [
                | inl same ↦ keeps same
                | inr (direct, released, changed) ↦
                    alarms on q rest (rw (sym (==→eq ioa ioa_emergency alarm), sym direct) e) addr
                      (rw (sym (==→eq ioa ioa_emergency alarm)) released) changed
              ])
          | inr unknown ↦ rw unknown (keeps refl)
        ])
      ]
  on_element-Obeys station snapshot now wall a s ioa (setpoint_float value select q) rest e addr =
      elim (Bool-cases (ioa == ioa_feed_in_limit)) [
        | inr other ↦ rw other (keeps refl)
        | inl limit ↦ rw limit (elim (Bool-cases (in_percent value)) [
          | inr beyond ↦ rw beyond (keeps refl)
          | inl within ↦
              rw within
                (elim (command_lem a ioa select now
                  (λ c. record c { feed_in_limit_pct = doubles.of_f32 value }) s) [
                    | inl same ↦ keeps same
                    | inr (direct, released, changed) ↦
                        limits value q rest
                          (rw (sym (==→eq ioa ioa_feed_in_limit limit), sym direct) e) within addr
                          (rw (sym (==→eq ioa ioa_feed_in_limit limit)) released) changed
                  ])
        ])
      ]
  on_element-Obeys station snapshot now wall a s ioa (interrogation qoi) rest e addr = ground arith
  on_element-Obeys station snapshot now wall a s ioa (clock_sync t) rest e addr = keeps refl
  on_element-Obeys station snapshot now wall a s ioa (single_point on q) rest e addr = keeps refl
  on_element-Obeys station snapshot now wall a s ioa (single_point_time on q t) rest e addr =
      keeps refl
  on_element-Obeys station snapshot now wall a s ioa (float v q) rest e addr = keeps refl
  on_element-Obeys station snapshot now wall a s ioa (float_time v q t) rest e addr = keeps refl
  on_element-Obeys station snapshot now wall a s ioa (end_of_init coi) rest e addr = keeps refl

  handle_first :
      (station : Station doubles) (snapshot : Snapshot doubles) (now : ℕ) (wall : ℤ) (a : Asdu)
      (s : Served doubles) (o : InformationObject) (rest : List InformationObject)
      → a.objects ≡ o ∷ rest
      → is_addressed doubles station a ≡ true
      → handle doubles station snapshot now wall a s
        ≡ on_element doubles station snapshot now wall a o.ioa o.element s
  unfolding handle
  handle_first station snapshot now wall a s o rest e addr = simp (addr, e)

  first_object :
      (station : Station doubles) (snapshot : Snapshot doubles) (now : ℕ) (wall : ℤ) (a : Asdu)
      (s : Served doubles) (objects : List InformationObject)
      → a.objects ≡ objects
      → is_addressed doubles station a ≡ true
      → Obeys station a now s (handle doubles station snapshot now wall a s).1.commands
  unfolding handle
  first_object station snapshot now wall a s [] e addr = rw (addr, e) (keeps refl)
  first_object station snapshot now wall a s (o ∷ rest) e addr =
      subst (λ r. Obeys station a now s r.1.commands)
        (sym (handle_first station snapshot now wall a s o rest e addr))
        (on_element-Obeys station snapshot now wall a s o.ioa o.element rest e addr)

  -- The station changes the operator's demands only on an ASDU that is addressed to it, is an
  -- activation, and executes one of the three commands on an object whose selection, if there is
  -- one, is not too old. It then sets what the object names to the command's value, and a feed-in
  -- limit only from 0 to 100 per cent.
  pub handle-Obeys :
      (station : Station doubles) (snapshot : Snapshot doubles) (now : ℕ) (wall : ℤ) (a : Asdu)
      (s : Served doubles)
      → Obeys station a now s (handle doubles station snapshot now wall a s).1.commands
  unfolding handle
  handle-Obeys station snapshot now wall a s = elim (Bool-cases (is_addressed doubles station a)) [
    | inr other ↦ rw other (keeps refl)
    | inl addressed ↦ (first_object station snapshot now wall a s a.objects refl addressed)
  ]

  -- An object that is selected at `t` is executed by an activation that comes less than 11 seconds
  -- later, whatever was selected before; one that comes later is refused, and the demands stay.
  pub command-after-select :
      (chosen a : Asdu) (ioa t now : ℕ) (idle apply : DsoCommands doubles → DsoCommands doubles)
      (s : Served doubles)
      → chosen.cause ≡ activation
      → a.cause ≡ activation
      → t ≤ now
      → let s' = (command doubles chosen ioa true t idle s).1 in
        let cleared = record s' { selected = remove ioa s'.selected } in
        (now < t + 11000
          → command doubles a ioa false now apply s'
            ≡ (executed a, record cleared { commands = apply s.commands }))
        × (t + 11000 ≤ now
            → command doubles a ioa false now apply s' ≡ (refused a activation_con, cleared))
  unfolding command
  command-after-select chosen a ioa t now idle apply s e f h = (
    λ early. rw (e, f, lookup-insert ioa t s.selected, in_time t now h early),
    λ late. rw (e, f, lookup-insert ioa t s.selected, out_of_time t now late),
  )
