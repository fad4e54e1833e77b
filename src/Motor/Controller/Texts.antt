-- ===== src/Motor/Controller/Texts.antt =====
-- The controller on a text that sets the speed.
use esp32_rs_on_idf.Common.{
  ℕ, ◌≡◌, ◌≢◌, refl, sym, ap, ◌∙◌, inl, inr, true, false, ◌&&◌, ◌||◌, if◌then◌else◌, leb, ◌==◌,
  Bool-cases, none, some, List, [], ◌∷◌, ◌++◌, All, else_is, then_is, arith,
}
use Prim.Native.Nat.{min}
use esp32_rs_on_idf.Common.Int.{pos, ltb_ℤ}
use esp32_rs_on_idf.Common.Text.{codes, is_digit, decimal}
use esp32_rs_on_idf.Motor.Motion.{step_freq_min_hz, step_freq_max_hz}
use esp32_rs_on_idf.Motor.JsonSearch.{
  found, read_string, read_int, read_unsigned, at_colon, skip_space, find_json_string,
  find_json_int,
}
use esp32_rs_on_idf.Motor.JsonSearch.Loop.{read_string-Reads, read_int-Reads, find_json_string_eq}
use esp32_rs_on_idf.Motor.JsonSearch.Members.{find_skip, find_hit, leading_digits-append}
use esp32_rs_on_idf.Motor.Controller.{
  set_speed, Message, MotorGlobals, blank_message, set_speed_message, message_of, command_message,
}

abbrev pub Digits : List ℕ → Type 0
Digits ds = All (λ d. is_digit d ≡ true) ds

-- The text, from after the brace, the name, the comma and the key of the speed on.
abbrev pub speed_member : List ℕ → List ℕ
speed_member ds = codes "speedHz\":" ++ ds ++ codes "}"

abbrev pub set_speed_text : List ℕ → List ℕ
set_speed_text ds = codes "{\"cmd\":\"setSpeed\",\"" ++ speed_member ds

cmd_of_set_speed_text :
    (ds : List ℕ) → find_json_string (set_speed_text ds) (codes "cmd") ≡ some (codes "setSpeed")
unfolding read_string at_colon
cmd_of_set_speed_text ds =
    find_json_string_eq (set_speed_text ds) (codes "cmd")
    ∙ find_hit (codes "cmd") read_string read_string-Reads (set_speed_text ds)
        (codes "cmd\":\"setSpeed\",\"" ++ speed_member ds) (codes "setSpeed") refl (omega arith)
        refl refl

digit_read :
    (ds : List ℕ)
    → Digits ds
    → ds ≢ []
    → read_int (ds ++ codes "}") ≡ found (pos (min (decimal 0 ds) 2_147_483_647))
unfolding read_int read_unsigned
digit_read [] all some_digit = absurd (some_digit refl)
digit_read (d ∷ ds) (here, all) some_digit =
    let unsigned : (d == 45) ≡ false = ground (arith, here) in
    rw unsigned (
      rw here (
        ap (λ l. found (pos (min (decimal 0 (d ∷ l)) 2_147_483_647)))
          (leading_digits-append ds [] 125 all refl)))

skip_space-Digits : (ds : List ℕ) → Digits ds → skip_space (ds ++ codes "}") ≡ ds ++ codes "}"
skip_space-Digits [] all = refl
skip_space-Digits (d ∷ ds) (here, all) =
    let visible : ((d == 32) || (d == 9) || (d == 10)) ≡ false = ground (arith, here) in
    else_is _ _ _ visible

speed_of_set_speed_text :
    (ds : List ℕ)
    → Digits ds
    → ds ≢ []
    → find_json_int (set_speed_text ds) (codes "speedHz")
      ≡ some (pos (min (decimal 0 ds) 2_147_483_647))
unfolding find_json_int at_colon
speed_of_set_speed_text ds all some_digit =
    let key = codes "speedHz" in
    find_skip key read_int read_int-Reads (set_speed_text ds)
      (codes "cmd\":\"setSpeed\",\"" ++ speed_member ds) refl (omega arith) refl
    ∙ find_skip key read_int read_int-Reads _ (codes ":\"setSpeed\",\"" ++ speed_member ds) refl
        (omega arith) refl
    ∙ find_skip key read_int read_int-Reads _ (codes "setSpeed\",\"" ++ speed_member ds) refl
        (omega arith) refl
    ∙ find_skip key read_int read_int-Reads _ (codes ",\"" ++ speed_member ds) refl (omega arith)
        refl
    ∙ find_hit key read_int read_int-Reads _ (speed_member ds)
        (pos (min (decimal 0 ds) 2_147_483_647)) refl (omega arith) refl
        (ap read_int (skip_space-Digits ds all) ∙ digit_read ds all some_digit)

range_test :
    (n : ℕ) (m : Message)
    → (if ltb_ℤ (pos (min n 2_147_483_647)) (pos step_freq_min_hz)
          || ltb_ℤ (pos step_freq_max_hz) (pos (min n 2_147_483_647))
        then none
        else some (record m { speed_hz = min n 2_147_483_647 }))
      ≡ (if leb step_freq_min_hz n && leb n step_freq_max_hz
          then some (record m { speed_hz = n })
          else none)
range_test n m =
    let k = min n 2_147_483_647 in
    let out = ltb_ℤ (pos k) (pos step_freq_min_hz) || ltb_ℤ (pos step_freq_max_hz) (pos k) in
    let set_to = λ (speed : ℕ). record m { speed_hz = speed } in
    elim (Bool-cases (leb step_freq_min_hz n && leb n step_freq_max_hz)) [
      | inl fits ↦
          let inside : out ≡ false = ground (arith, fits) in
          let same : k ≡ n = ground (arith, fits) in
          else_is out none (some (set_to k)) inside
          ∙ ap (λ t. some (set_to t)) same
          ∙ sym (then_is _ (some (set_to n)) none fits)
      | inr refused ↦
          let outside : out ≡ true = ground (arith, refused) in
          then_is out none (some (set_to k)) outside
          ∙ sym (else_is _ (some (set_to n)) none refused)
    ]

-- On `{"cmd":"setSpeed","speedHz":<digits>}` the controller makes the message that sets the speed
-- to the number the digits write, if it is from 30 to 3000, and no message otherwise, however many
-- digits there are.
pub command_message-set_speed_text :
    (g : MotorGlobals) (ds : List ℕ)
    → Digits ds
    → ds ≢ []
    → command_message g (set_speed_text ds) ≡ (
        if leb step_freq_min_hz (decimal 0 ds) && leb (decimal 0 ds) step_freq_max_hz
        then some (record (blank_message g set_speed) { speed_hz = decimal 0 ds })
        else none)
unfolding command_message message_of set_speed_message
command_message-set_speed_text g ds all some_digit =
    let speed = speed_of_set_speed_text ds all some_digit in
    rw (cmd_of_set_speed_text ds) (rw speed (range_test (decimal 0 ds) (blank_message g set_speed)))
