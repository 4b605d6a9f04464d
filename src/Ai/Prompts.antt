-- ===== src/Ai/Prompts.antt =====
-- `replaceAll` and `renderPrompt` of src/ai_orchestrator/ai_orchestrator_service.cpp. The code walks
-- bytes; what it looks for is whole characters of UTF-8, so the model walks characters.
use Prim.Native.Char.{code}
use Prim.Native.String.{count, ◌++◌ as str_append}
use red_culture_service.Common.{
  ℕ, zero, suc, String, List, [], ◌∷◌, Option, none, some, is_empty, ◌==◌, if◌then◌else◌,
}
use red_culture_service.Common.Text.{to_string}
use red_culture_service.Ai.Types.{AiContext}

-- What follows the prefix in a text that begins with it.
unfoldable pub strip_prefix : String → String → Option String
strip_prefix String.[] text = some text
strip_prefix (String.◌∷◌ c from) String.[] = none
strip_prefix (String.◌∷◌ c from) (String.◌∷◌ d text) =
    if code c == code d then strip_prefix from text else none

-- The loop from one position on, with fuel: each turn passes at least one character, so the number
-- of characters is enough.
unfoldable pub replace_loop : ℕ → String → String → String → String
unfolding strip_prefix
replace_loop zero text from to = text
replace_loop (suc fuel) String.[] from to = ""
replace_loop (suc fuel) (String.◌∷◌ c text) from to = elim (strip_prefix from (String.◌∷◌ c text)) [
  | none ↦ String.◌∷◌ c (replace_loop fuel text from to)
  | some rest ↦ str_append to (replace_loop fuel rest from to)
]

unfoldable pub replace_all : String → String → String → String
unfolding replace_loop
replace_all text from to = if is_empty from then text else replace_loop (count text) text from to

-- The loop of `renderPrompt` over the metadata.
unfoldable pub replace_metadata : String → List (String × String) → String
unfolding replace_all
replace_metadata prompt [] = prompt
replace_metadata prompt ((key, value) ∷ metadata) =
    let name = str_append "{metadata." (str_append key "}") in
    replace_metadata (replace_all prompt name value) metadata

unfoldable pub render_prompt : String → AiContext → String
unfolding replace_all replace_metadata to_string
render_prompt prompt_template context =
    let p1 = replace_all prompt_template "{room_id}" (to_string context.room_id) in
    let p2 = replace_all p1 "{player_id}" context.player_id in
    let p3 = replace_all p2 "{scene_id}" context.scene_id in
    let p4 = replace_all p3 "{topic}" context.topic in
    let p5 = replace_all p4 "{user_input}" context.user_input in
    replace_metadata p5 context.metadata
