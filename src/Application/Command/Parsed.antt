-- ===== src/Application/Command/Parsed.antt =====
-- What comes of the text of a command.
use esp32_rs_on_idf.Common.{
  ℕ, zero, suc, ◌%◌, ◌≤◌, ◌<◌, ◌≡◌, refl, inl, inr, Option-cases, Option, none, some, ◌>>=◌, List,
  [], ◌∷◌, length, arith,
}
use esp32_rs_on_idf.Common.Float.{FloatOps}
use esp32_rs_on_idf.Common.Text.{codes}
use esp32_rs_on_idf.Domain.Types.{Result, ok, unexpected}
use esp32_rs_on_idf.Application.CommandTypes.{
  Command, max_measurements, CommandType, fill, empty, dose_volume, rinse, stop, emergency_stop,
  get_status, move_steps, set_direction, set_speed, set_accel, cal_get, cal_calc_volume,
  cal_calc_speed, cal_save, cal_reset, cal_run, cal_get_result, cal_run_speed_seq, move_to_stop,
  temp_read, adc_cal_get, adc_cal_save, adc_cal_measure, adc_cal_compute, adc_cal_reset,
  stall_guard_get, stall_guard_set_threshold, valve_set_position, valve_get_state,
  system_get_status, system_get_formatted_logs, system_read_log, system_firmware_version,
  serial_ping,
}
use esp32_rs_on_idf.Application.Command.{
  ProtocolError, invalid_json, unknown_command, missing_param, JsonApi, lookup_in, lookup_cmd_type,
  read_u32, read_freqs, read_measurement, read_measurements, items_at, read_params, parse_command,
}

-- A name of each command.
abbrev pub name_of : CommandType → List ℕ
name_of fill = codes "burette.fill"
name_of empty = codes "burette.empty"
name_of dose_volume = codes "burette.doseVolume"
name_of rinse = codes "burette.rinse"
name_of stop = codes "burette.stop"
name_of emergency_stop = codes "burette.emergencyStop"
name_of get_status = codes "burette.getStatus"
name_of move_steps = codes "burette.moveSteps"
name_of set_direction = codes "burette.setDirection"
name_of set_speed = codes "burette.setSpeed"
name_of set_accel = codes "burette.setAccel"
name_of cal_get = codes "burette.cal.get"
name_of cal_calc_volume = codes "burette.cal.calcVolume"
name_of cal_calc_speed = codes "burette.cal.calcSpeed"
name_of cal_save = codes "burette.cal.save"
name_of cal_reset = codes "burette.cal.reset"
name_of cal_run = codes "burette.cal.run"
name_of cal_get_result = codes "burette.cal.getResult"
name_of cal_run_speed_seq = codes "burette.cal.runSpeedSeq"
name_of move_to_stop = codes "burette.moveToStop"
name_of temp_read = codes "temperature.read"
name_of adc_cal_get = codes "adc.cal.get"
name_of adc_cal_save = codes "adc.cal.save"
name_of adc_cal_measure = codes "adc.cal.measure"
name_of adc_cal_compute = codes "adc.cal.compute"
name_of adc_cal_reset = codes "adc.cal.reset"
name_of stall_guard_get = codes "stallGuard.get"
name_of stall_guard_set_threshold = codes "stallGuard.setThreshold"
name_of valve_set_position = codes "valve.setPosition"
name_of valve_get_state = codes "valve.getState"
name_of system_get_status = codes "system.getStatus"
name_of system_get_formatted_logs = codes "system.getFormattedLogs"
name_of system_read_log = codes "system.readLog"
name_of system_firmware_version = codes "system.firmwareVersion"
name_of serial_ping = codes "serial.ping"

-- The table gives every command type a name that the lookup finds for it, so no type is out of reach
-- of the texts.
pub lookup_cmd_type-name_of : (type : CommandType) → lookup_cmd_type (name_of type) ≡ some type
unfolding lookup_cmd_type lookup_in
lookup_cmd_type-name_of fill = refl
lookup_cmd_type-name_of empty = refl
lookup_cmd_type-name_of dose_volume = refl
lookup_cmd_type-name_of rinse = refl
lookup_cmd_type-name_of stop = refl
lookup_cmd_type-name_of emergency_stop = refl
lookup_cmd_type-name_of get_status = refl
lookup_cmd_type-name_of move_steps = refl
lookup_cmd_type-name_of set_direction = refl
lookup_cmd_type-name_of set_speed = refl
lookup_cmd_type-name_of set_accel = refl
lookup_cmd_type-name_of cal_get = refl
lookup_cmd_type-name_of cal_calc_volume = refl
lookup_cmd_type-name_of cal_calc_speed = refl
lookup_cmd_type-name_of cal_save = refl
lookup_cmd_type-name_of cal_reset = refl
lookup_cmd_type-name_of cal_run = refl
lookup_cmd_type-name_of cal_get_result = refl
lookup_cmd_type-name_of cal_run_speed_seq = refl
lookup_cmd_type-name_of move_to_stop = refl
lookup_cmd_type-name_of temp_read = refl
lookup_cmd_type-name_of adc_cal_get = refl
lookup_cmd_type-name_of adc_cal_save = refl
lookup_cmd_type-name_of adc_cal_measure = refl
lookup_cmd_type-name_of adc_cal_compute = refl
lookup_cmd_type-name_of adc_cal_reset = refl
lookup_cmd_type-name_of stall_guard_get = refl
lookup_cmd_type-name_of stall_guard_set_threshold = refl
lookup_cmd_type-name_of valve_set_position = refl
lookup_cmd_type-name_of valve_get_state = refl
lookup_cmd_type-name_of system_get_status = refl
lookup_cmd_type-name_of system_get_formatted_logs = refl
lookup_cmd_type-name_of system_read_log = refl
lookup_cmd_type-name_of system_firmware_version = refl
lookup_cmd_type-name_of serial_ping = refl

abbrev pub Byte : Option ℕ → Type 0
Byte none = Unit {0}
Byte (some n) = n < 256

module _ {J F : Type 0} ⦃o : FloatOps F⦄ (api : JsonApi J F) where
  length-read_freqs :
      (values : List J) (room : ℕ) → length (read_freqs ⦃o = o⦄ api values room) ≤ room
  unfolding read_freqs
  length-read_freqs [] room = omega arith
  length-read_freqs (v ∷ values) zero = omega arith
  length-read_freqs (v ∷ values) (suc room) = elim (Option-cases (api.as_number v)) [
    | inl e ↦ rw (e, read_freqs) (length-read_freqs values (suc room))
    | inr (f, e) ↦ rw (e, read_freqs) (omega (arith, length-read_freqs values room))
  ]

  length-read_measurements :
      (values : List J) (room : ℕ) → length (read_measurements ⦃o = o⦄ api values room) ≤ room
  unfolding read_measurements
  length-read_measurements [] room = omega arith
  length-read_measurements (v ∷ values) zero = omega arith
  length-read_measurements (v ∷ values) (suc room) =
      elim (Option-cases (read_measurement ⦃o = o⦄ api v)) [
        | inl e ↦ rw (e, read_measurements) (length-read_measurements values (suc room))
        | inr (m, e) ↦
            rw (e, read_measurements) (omega (arith, length-read_measurements values room))
      ]

  threshold-Byte : (n : Option ℕ) → Byte (n >>= λ t. some (t % 256))
  threshold-Byte none = tt
  threshold-Byte (some n) = omega arith

  -- How a text is parsed.
  pub data Parsed (json_str : List ℕ) : Result (Command F) ProtocolError → Type 0 where
    not_json : api.parse json_str ≡ none → Parsed json_str (unexpected invalid_json)
    not_named :
        (j : J)
        → api.parse json_str ≡ some j
        → (api.find j (codes "cmd") >>= api.as_string) ≡ none
        → Parsed json_str (unexpected missing_param)
    not_known :
        (j : J) (name : List ℕ)
        → api.parse json_str ≡ some j
        → (api.find j (codes "cmd") >>= api.as_string) ≡ some name
        → lookup_cmd_type name ≡ none
        → Parsed json_str (unexpected unknown_command)
    parsed :
        (j : J) (name : List ℕ) (cmd : Command F)
        → api.parse json_str ≡ some j
        → (api.find j (codes "cmd") >>= api.as_string) ≡ some name
        → lookup_cmd_type name ≡ some cmd.type
        → length cmd.freqs_array ≤ max_measurements
        → length cmd.measurements ≤ max_measurements
        → Byte cmd.sg_threshold
        → Parsed json_str (ok cmd)

  -- `parseCommand` on every text: the error says what is wrong (the text is no JSON, it has no name of
  -- a command, or an unknown one), and a command has the type that the table gives its name, at most
  -- 16 frequencies, at most 16 measurements, and a threshold of one byte, if any.
  pub parse_command-Parsed :
      (json_str : List ℕ) → Parsed json_str (parse_command ⦃o = o⦄ api json_str)
  unfolding parse_command read_params
  parse_command-Parsed json_str = elim (Option-cases (api.parse json_str)) [
    | inl e ↦ rw (e, parse_command) (not_json e)
    | inr (j, e) ↦ elim (Option-cases (api.find j (codes "cmd") >>= api.as_string)) [
      | inl e1 ↦ rw (e, parse_command) (rw e1 (not_named j e e1))
      | inr (name, e1) ↦ elim (Option-cases (lookup_cmd_type name)) [
        | inl e2 ↦ rw (e, parse_command) (rw e1 (rw e2 (not_known j name e e1 e2)))
        | inr (type, e2) ↦
            let cmd = read_params ⦃o = o⦄ api j type in
            let done : Parsed json_str (ok cmd) =
              parsed j name cmd e e1 e2
                (length-read_freqs (items_at ⦃o = o⦄ api j (codes "freqs")) max_measurements)
                (length-read_measurements (items_at ⦃o = o⦄ api j (codes "measurements"))
                  max_measurements)
                (threshold-Byte (read_u32 ⦃o = o⦄ api j (codes "threshold"))) in
            rw (e, parse_command) (rw e1 (rw e2 done))
      ]
    ]
  ]
