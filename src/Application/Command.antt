-- ===== src/Application/Command.antt =====
-- components/application/src/command.cpp: the parsing of a command. The JSON library is a parameter,
-- `JsonApi`; a text is its bytes, without a NUL.
pub mod Parsed
use esp32_rs_on_idf.Common.{
  ℕ, zero, suc, ◌+◌, ◌%◌, Bool, true, false, ◌&&◌, if◌then◌else◌, ltb, leb, ◌==◌, u32, Option, none,
  some, ◌>>=◌, List, [], ◌∷◌, length, get_or,
}
use esp32_rs_on_idf.Common.Int.{ℤ}
use esp32_rs_on_idf.Common.Float.{FloatOps, lit, lef, ltf}
use esp32_rs_on_idf.Common.Text.{codes, same_text}
use esp32_rs_on_idf.Domain.Types.{
  Direction, liq_in, liq_out, ValvePosition, input, output, Result, ok, unexpected,
}
use esp32_rs_on_idf.Application.CommandTypes.{CommandType, Command, cmd_names, max_measurements}

pub data ProtocolError : Type 0 where
  invalid_json unknown_command missing_param : ProtocolError

-- What is used of nlohmann::json: a value of each kind, if it is of that kind, with the conversion
-- that `get` makes of it. `as_number` is the number as a `float`.
pub record JsonApi (J F : Type 0) : Type 0 where
  pub parse : List ℕ → Option J
  pub find : J → List ℕ → Option J
  pub as_string : J → Option (List ℕ)
  pub as_number : J → Option F
  pub as_int32 : J → Option ℤ
  pub as_u32 : J → Option ℕ
  pub as_u64 : J → Option ℕ
  pub as_array : J → Option (List J)
  pub is_object : J → Bool

-- The loop over the table; `none` is the sentinel.
unfoldable pub lookup_in : List (List ℕ × CommandType) → List ℕ → Option CommandType
lookup_in [] name = none
lookup_in ((entry, type) ∷ table) name =
    if same_text name entry then some type else lookup_in table name

unfoldable pub lookup_cmd_type : List ℕ → Option CommandType
lookup_cmd_type = lookup_in cmd_names

abbrev pub to_lower : ℕ → ℕ
to_lower c = if leb 65 c && leb c 90 then c + 32 else c

-- The character at a place, in lower case; behind the end of the text stands the NUL.
abbrev pub lower_at : List ℕ → ℕ → ℕ
lower_at s i = to_lower (get_or s i 0)

unfoldable pub direction_of_text : List ℕ → Option Direction
direction_of_text s =
    if ltb (length s) 6
    then none
    else if (lower_at s 0 == 108) && (lower_at s 1 == 105) && (lower_at s 2 == 113)
    then (if (lower_at s 4 == 105) && (lower_at s 5 == 110)
        then some liq_in
        else if (lower_at s 4 == 111) && (lower_at s 5 == 117) && (lower_at s 6 == 116)
        then some liq_out
        else none)
    else none

unfoldable pub valve_position_of_text : List ℕ → Option ValvePosition
valve_position_of_text s =
    if same_text s (codes "input")
    then some input
    else if same_text s (codes "output")
    then some output
    else none

module _ {J F : Type 0} ⦃o : FloatOps F⦄ (api : JsonApi J F) where
  unfoldable pub parse_direction : J → List ℕ → Option Direction
  parse_direction j key = api.find j key >>= api.as_string >>= direction_of_text

  unfoldable pub parse_valve_position : J → List ℕ → Option ValvePosition
  parse_valve_position j key = api.find j key >>= api.as_string >>= valve_position_of_text

  abbrev pub read_number : J → List ℕ → Option F
  read_number j key = api.find j key >>= api.as_number

  abbrev pub read_int32 : J → List ℕ → Option ℤ
  read_int32 j key = api.find j key >>= api.as_int32

  abbrev pub read_u32 : J → List ℕ → Option ℕ
  read_u32 j key = api.find j key >>= api.as_u32

  -- The fallback for the web page. A float is 0 if it is at most and at least 0.
  unfoldable pub or_freq : Option F → Option F → Option F
  or_freq none freq = freq
  or_freq (some f) none = some f
  or_freq (some f) (some freq) = if lef f (lit 0 0) && lef (lit 0 0) f then some freq else some f

  -- The loop over "freqs", with the places that are left.
  unfoldable pub read_freqs : List J → ℕ → List F
  read_freqs [] room = []
  read_freqs (v ∷ values) zero = []
  read_freqs (v ∷ values) (suc room) =
      let skipped = read_freqs values (suc room) in
      let rest = read_freqs values room in
      elim (api.as_number v) [ none ↦ skipped | some f ↦ f ∷ rest ]

  -- The two numbers of a measurement.
  unfoldable pub read_measurement : J → Option (F × F)
  read_measurement v =
      if api.is_object v
      then (read_number v (codes "freq_hz") >>= λ f.
          read_number v (codes "speed_ml_min") >>= λ s. some (f, s))
      else none

  unfoldable pub read_measurements : List J → ℕ → List (F × F)
  read_measurements [] room = []
  read_measurements (v ∷ values) zero = []
  read_measurements (v ∷ values) (suc room) =
      let skipped = read_measurements values (suc room) in
      let rest = read_measurements values room in
      elim (read_measurement v) [ none ↦ skipped | some m ↦ m ∷ rest ]

  abbrev pub items_at : J → List ℕ → List J
  items_at j key = elim (api.find j key >>= api.as_array) [ none ↦ [] | some values ↦ values ]

  abbrev pub or_zero : Option ℕ → ℕ
  or_zero none = 0
  or_zero (some n) = n

  -- The parameters, each of them optional.
  unfoldable pub read_params : J → CommandType → Command F
  read_params j type = record {
    type = type;
    volume = read_number j (codes "volume");
    steps = read_int32 j (codes "steps");
    direction = parse_direction j (codes "direction");
    speed = read_u32 j (codes "speed");
    accel = read_u32 j (codes "accel");
    speed_ml_min = read_number j (codes "speed_ml_min");
    target_volume = read_number j (codes "targetVolume");
    valve_pos = parse_valve_position j (codes "position");
    sg_threshold = read_u32 j (codes "threshold") >>= λ n. some (n % 256);
    mode = api.find j (codes "mode") >>= api.as_string;
    freq_hz = or_freq (read_number j (codes "freq_hz")) (read_number j (codes "freq"));
    mass_g = read_number j (codes "mass_g");
    temperature = read_number j (codes "temp_c");
    pressure = read_number j (codes "pressure_kpa");
    ref_mv = read_number j (codes "ref_mv");
    id = or_zero (api.find j (codes "id") >>= api.as_u64);
    measurements = read_measurements (items_at j (codes "measurements")) max_measurements;
    freqs_array = read_freqs (items_at j (codes "freqs")) max_measurements;
  }

  unfoldable pub parse_command : List ℕ → Result (Command F) ProtocolError
  parse_command json_str = elim (api.parse json_str) [
    | none ↦ unexpected invalid_json
    | some j ↦ elim (api.find j (codes "cmd") >>= api.as_string) [
      | none ↦ unexpected missing_param
      | some name ↦ elim (lookup_cmd_type name) [
        | none ↦ unexpected unknown_command
        | some type ↦ ok (read_params j type)
      ]
    ]
  ]
