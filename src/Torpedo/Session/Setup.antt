-- ===== src/Torpedo/Session/Setup.antt =====
-- The first part of `main` of examples/torpedo/cpp_example/main.cpp, up to the raw terminal, with
-- `registerCallbacks` and `unregisterCallbacks`.
use nim_brokers.Prelude.{
  ℕ, zero, suc, ℤ, none, some, [], ◌∷◌, ◌++◌, Bytes, codes, cat, dec, dec_int, if◌then◌else◌,
}
use nim_brokers.Torpedo.Config.{Config, turn_delay_ms}
use nim_brokers.Torpedo.EventLog.{push}
use nim_brokers.Torpedo.Session.{
  Side, red, blue, Kind, remark, shot, match, volley, created, listened, initialized, placed,
  linked, started, raw_terminal, unlistened, Answer, ok, error, Library, next, M, ◌>>=◌, ◌>>◌, pure,
  emit, checked, Handles,
}

abbrev pub push_log : Bytes → M (Unit {0})
push_log msg s = next tt (record s { log = push s.log msg })

abbrev pub fleet_name : Side → Bytes
fleet_name red = codes "Red Fleet"
fleet_name blue = codes "Blue Fleet"

abbrev pub short_name : Side → Bytes
short_name red = codes "Red"
short_name blue = codes "Blue"

abbrev seed : Config → Side → ℤ
seed cfg red = cfg.seed_red
seed cfg blue = cfg.seed_blue

module _ (lib : Library) where
  open lib use {
    create_context, listen, initialize_captain, auto_place_fleet, ctx, link_opponent, start_game,
  }

  abbrev pub create : Side → M (Unit {0})
  create side s = let r = create_context s.trace side in checked (created side r) r s

  abbrev pub on : Side → Kind → M ℕ
  on side kind s =
      let h = listen s.trace side kind in
      next h (record s { trace = listened side kind h ∷ s.trace })

  unfoldable pub register_callbacks : Side → M Handles
  register_callbacks side = do
    r ← on side remark
    s ← on side shot
    m ← on side match
    v ← on side volley
    push_log (fleet_name side ++ codes " event listeners attached")
    pure (record { remark = r; shot = s; match = m; volley = v })

  -- `if (h.kind) lib.offKind(h.kind);`
  abbrev pub off : Side → Kind → ℕ → M (Unit {0})
  off side kind zero s = next tt s
  off side kind (suc h) s = emit (unlistened side kind (suc h)) s

  unfoldable pub unregister_callbacks : Side → Handles → M (Unit {0})
  unregister_callbacks side h = do
    off side remark h.remark
    off side shot h.shot
    off side match h.match
    off side volley h.volley

  abbrev pub initialize : Config → Side → M (Unit {0})
  initialize cfg side s =
      let r = initialize_captain s.trace side in
      let size = cfg.board_size in
      checked
        (initialized side (fleet_name side) size (codes "hunt") (seed cfg side) (turn_delay_ms cfg)
          r)
        r s

  abbrev pub place_answer : Side → Answer ℤ → M (Unit {0})
  place_answer side (ok ships) = do
    emit (placed side none)
    push_log (cat (short_name side ∷ codes " placed " ∷ dec_int ships ∷ codes " ships" ∷ []))
  place_answer side (error e) = checked (placed side (some e)) (some e)

  abbrev pub place : Side → M (Unit {0})
  place side s = place_answer side (auto_place_fleet s.trace side) s

  abbrev pub link : Side → Side → M (Unit {0})
  link side other s = let r = link_opponent s.trace side in checked (linked side (ctx other) r) r s

  abbrev pub start : Side → M (Unit {0})
  start side s =
      let r = start_game s.trace side in
      checked (started side r) r (record s { banner = fleet_name side ++ codes " opens the duel" })

  abbrev pub attach : M (Handles × Handles)
  attach = do r ← register_callbacks red; b ← register_callbacks blue; pure (r, b)

  -- From the registration to the first frame.
  unfoldable pub prepare : Config → M (Unit {0})
  prepare cfg = do
    initialize cfg red
    initialize cfg blue
    place red
    place blue
    link red blue
    link blue red
    push_log
        (cat (codes "Linked contexts red=" ∷ dec (ctx red) ∷ codes " blue=" ∷ dec (ctx blue) ∷ []))
    start (if cfg.starter_is_red then red else blue)
    emit raw_terminal
