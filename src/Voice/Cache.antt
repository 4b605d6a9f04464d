-- ===== src/Voice/Cache.antt =====
-- The cache of audio in src/voice_tts/voice_tts_service.cpp.
use Prim.Native.String.{◌++◌ as str_append}
use red_culture_service.Common.{
  ℕ, zero, suc, String, List, [], ◌∷◌, Option, none, some, str_dec, ltb, leb, if◌then◌else◌,
}
use red_culture_service.Common.Text.{to_string}
use red_culture_service.Common.Map.{lookup, insert, erase, size}
use red_culture_service.Voice.Types.{TextOps, TtsRequest, AudioResource, AudioCache, format_name}

unfoldable pub build_cache_key : (X : TextOps) → TtsRequest X → String
unfolding to_string
build_cache_key X request =
    let bar = λ (s t : String). str_append s (str_append "|" t) in
    let floats =
      bar (X.print_float request.voice.speed)
        (bar (X.print_float request.voice.pitch) (X.print_float request.voice.volume)) in
    let text = bar request.text (
      bar request.voice.voice_id
        (bar request.voice.language (bar floats (format_name request.format)))) in
    str_append "tts:" (to_string (X.hash text))

unfoldable pub build_audio_id : String → ℕ → String
unfolding to_string
build_audio_id cache_key task_id = str_append cache_key (str_append ":task:" (to_string task_id))

unfoldable pub find_cached_audio_locked : AudioCache → String → ℕ → Option AudioResource
find_cached_audio_locked cache cache_key now = elim (lookup str_dec cache_key cache.resources) [
  | none ↦ none
  | some audio ↦ if leb audio.expires_at now then none else some audio
]

-- The inner loop: the first of the entries that were made earliest.
unfoldable pub oldest_of :
    String × AudioResource → List (String × AudioResource) → String × AudioResource
oldest_of oldest [] = oldest
oldest_of oldest (entry ∷ entries) =
    let oldest' = if ltb entry.1.created_at oldest.1.created_at then entry else oldest in
    oldest_of oldest' entries

-- The loop with fuel; each turn drops an entry, so the number of entries is enough.
unfoldable pub enforce_loop : ℕ → ℕ → AudioCache → AudioCache
unfolding oldest_of
enforce_loop zero max cache = cache
enforce_loop (suc fuel) max cache = elim cache.resources [
  | [] ↦ cache
  | entry ∷ entries ↦
      let oldest = oldest_of entry entries in
      let rest = enforce_loop fuel max (record {
        resources = erase str_dec oldest.0 cache.resources;
        id_keys = erase str_dec oldest.1.id cache.id_keys;
      }) in
      if ltb max (size cache.resources) then rest else cache
]

unfoldable pub enforce_cache_limit_locked : ℕ → AudioCache → AudioCache
unfolding enforce_loop
enforce_cache_limit_locked max cache = enforce_loop (size cache.resources) max cache

unfoldable pub store_cache_locked : ℕ → AudioCache → String → AudioResource → AudioCache
unfolding enforce_cache_limit_locked
store_cache_locked max cache cache_key audio = enforce_cache_limit_locked max (record {
  resources = insert str_dec cache_key audio cache.resources;
  id_keys = insert str_dec audio.id cache_key cache.id_keys;
})

-- `clearExpiredCache`
unfoldable pub clear_loop : ℕ → List (String × AudioResource) → List (String × String) → AudioCache
clear_loop now [] ids = record { resources = []; id_keys = ids }
clear_loop now ((cache_key, audio) ∷ entries) ids =
    let kept = clear_loop now entries ids in
    let cleared = clear_loop now entries (erase str_dec audio.id ids) in
    if leb audio.expires_at now
    then cleared
    else record { resources = (cache_key, audio) ∷ kept.resources; id_keys = kept.id_keys }

unfoldable pub clear_expired_cache : ℕ → AudioCache → AudioCache
unfolding clear_loop
clear_expired_cache now cache = clear_loop now cache.resources cache.id_keys

unfoldable pub find_audio : AudioCache → String → ℕ → Option AudioResource
unfolding find_cached_audio_locked
find_audio cache audio_id now = elim (lookup str_dec audio_id cache.id_keys) [
  | none ↦ none
  | some cache_key ↦ find_cached_audio_locked cache cache_key now
]
