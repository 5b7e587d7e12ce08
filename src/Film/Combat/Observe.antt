-- ===== src/Film/Combat/Observe.antt =====
-- `observe` of combat.rs: a tick is checked and added to the state. The state that an error leaves behind
-- is left out, since the encoder stops at an error.
use halospawns_infra.Prelude.{
  ℕ, max, Bool, true, false, ◌&&◌, ◌||◌, not, Option, none, some, List, [], ◌∷◌, length, ltb, ◌==◌,
  if◌then◌else◌,
}
use halospawns_infra.Prelude.Results.{Result, ok, err, ◌>>=◌}
use halospawns_infra.Prelude.OrderedMap.{number_order, insert}
use halospawns_infra.Delta.Codes.{Text}
use halospawns_infra.Delta.Writer.{text_eq}
use halospawns_infra.Film.Combat.{
  Error, Amounts, Coverage, Frame, Tick, Combat, each, missing_roster, invalid_roster,
  invalid_source, invalid_envelope,
}
use halospawns_infra.Film.Combat.Events.{◌>>◌, refuse_if, observe_weapon, observe_shot}
use halospawns_infra.Film.Combat.Outcomes.{observe_damage, observe_death, observe_award}
use halospawns_infra.Pose.Unpack.{max_players}

-- `is_some_and(|clock| clock != 0)`
abbrev pub is_late : Option ℕ → Bool
is_late none = false
is_late (some clock) = not (clock == 0)

abbrev pub is_true : Option Bool → Bool
is_true none = false
is_true (some b) = b

-- `if ordinal == 0`
unfoldable pub begin : Tick → ℕ → Combat → Combat
begin tick ordinal c =
    if ordinal == 0 then record c { partial_recording = is_late tick.current_tick } else c

-- `for player in tick["players"]`
unfoldable pub observe_player : Option ℕ → Combat → Result Error Combat
observe_player none c = err invalid_roster
observe_player (some s) c =
    if ltb s max_players
    then ok (record c { slots = insert number_order s tt c.slots })
    else err invalid_roster

unfoldable pub observe_roster : Option (List (Option ℕ)) → Combat → Result Error Combat
unfolding each observe_player
observe_roster none c = err missing_roster
observe_roster (some players) c = each observe_player players c

abbrev pub schema_text : Text
schema_text =
    b'h' ∷ b'a' ∷ b'l' ∷ b'o' ∷ b's' ∷ b'p' ∷ b'a' ∷ b'w' ∷ b'n' ∷ b's' ∷ b'.' ∷ b'h' ∷ b'1' ∷ b'C'
    ∷ b'o' ∷ b'm' ∷ b'b' ∷ b'a' ∷ b't' ∷ b'S' ∷ b'o' ∷ b'u' ∷ b'r' ∷ b'c' ∷ b'e' ∷ b'.' ∷ b'v'
    ∷ b'1' ∷ []

unfoldable pub invalid_frame : Frame → Bool
invalid_frame f =
    not (text_eq f.schema schema_text)
    || ((ltb 2 f.coverage.of_shots
          || (ltb 2 f.coverage.of_damage
              || (ltb 2 f.coverage.of_deaths || ltb 2 f.coverage.of_awards)))
        || (ltb 64 (length f.weapons)
            || (ltb 256 (length f.shots)
                || (ltb 1024 (length f.damage)
                    || (ltb 64 (length f.deaths) || ltb max_players (length f.awards))))))

-- `*current = (*current).max(incoming)`, for each level
abbrev pub raise_coverage : Coverage → Combat → Combat
raise_coverage f c = record c {
  coverage = record {
    of_shots = max c.coverage.of_shots f.of_shots;
    of_damage = max c.coverage.of_damage f.of_damage;
    of_deaths = max c.coverage.of_deaths f.of_deaths;
    of_awards = max c.coverage.of_awards f.of_awards;
  };
}

module _ (A : Amounts) (count_chars : Text → ℕ) where
  unfoldable pub observe_frame : Frame → ℕ → Combat → Result Error Combat
  unfolding each invalid_frame observe_weapon observe_shot observe_damage observe_death
      observe_award
  observe_frame f ordinal c = do
    refuse_if (invalid_frame f) invalid_envelope
    with_weapons ←
        each (observe_weapon count_chars) f.weapons
          (raise_coverage f.coverage (record c { seen = true }))
    with_shots ← each observe_shot f.shots with_weapons
    with_damage ← each (observe_damage A) f.damage with_shots
    with_deaths ← each (observe_death A ordinal) f.deaths with_damage
    (with_awards, slots) ← each observe_award f.awards (with_deaths, [])
    ok with_awards

  -- `let Some(value) = tick.get("combat") else`, and `from_value`
  unfoldable pub observe_source : Option (Option Frame) → ℕ → Combat → Result Error Combat
  unfolding observe_frame
  observe_source none ordinal c = ok (record c { missing = true })
  observe_source (some none) ordinal c = err invalid_source
  observe_source (some (some f)) ordinal c = observe_frame f ordinal c

  -- `self.ended = …`, behind the return for a film that has ended
  unfoldable pub observe_rest : Tick → ℕ → Combat → Result Error Combat
  unfolding observe_source
  observe_rest tick ordinal c =
      let ended = is_true tick.game_ended_this_tick in
      observe_source tick.combat ordinal
        (record c { ended = ended; missing = c.missing || ((ordinal == 0) && ended) })

  -- fn observe
  unfoldable pub observe : Tick → ℕ → Combat → Result Error Combat
  unfolding begin observe_roster observe_rest
  observe tick ordinal c = observe_roster tick.players (begin tick ordinal c) >>= λ d.
      if d.ended then ok d else observe_rest tick ordinal d
