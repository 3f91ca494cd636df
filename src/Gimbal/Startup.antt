-- ===== src/Gimbal/Startup.antt =====
-- terminal/src/servo/ServoController.cpp: `init` brings both servos up.
use qt_s5p6818_face_tracking.Base.{
  ℕ, zero, suc, ◌≡◌, refl, sym, ap, ◌∙◌, subst, Bool, true, false, not, List, [], ◌∷◌, ◌++◌, Bytes,
  append_assoc, append-nil, if_lem, All, All-append,
}
use qt_s5p6818_face_tracking.Base.Text.{codes, to_string}
use qt_s5p6818_face_tracking.Core.Tracking.{pos}
use qt_s5p6818_face_tracking.Gimbal.{Doubles}
use qt_s5p6818_face_tracking.Gimbal.Servo.{
  ServoController, Longs, chan_dir, write_str, stat, await, export_channel, angle_to_duty_ns,
  config_channel, both, init, set_channel_angle,
}

-- Four writes, one after another.
snoc_four :
    {A : Type 0} (xs : List A) (a b c d : A)
    → (((xs ++ a ∷ []) ++ b ∷ []) ++ c ∷ []) ++ d ∷ [] ≡ xs ++ (a ∷ b ∷ c ∷ d ∷ [])
snoc_four [] a b c d = refl
snoc_four (x ∷ xs) a b c d = ap (◌∷◌ x) (snoc_four xs a b c d)

module _ {R : Type 0} where
  -- Only the files have changed, by these writes.
  abbrev pub Wrote : ServoController R → List (Bytes × Bytes) → ServoController R → Type 0
  Wrote s ws t = (t ≡ record s { sysfs = t.sysfs }) × (t.sysfs.writes ≡ s.sysfs.writes ++ ws)

  Wrote-trans :
      (s t u : ServoController R) (vs ws : List (Bytes × Bytes))
      → Wrote s vs t
      → Wrote t ws u
      → Wrote s (vs ++ ws) u
  Wrote-trans s t u vs ws (a, b) (c, d) = (
    c ∙ ap {A = ServoController R} (λ x. record x { sysfs = u.sysfs }) a,
    d ∙ ap (λ x. x ++ ws) b ∙ append_assoc s.sysfs.writes vs ws,
  )

  await-Wrote : (k : ℕ) (s : ServoController R) → Wrote s [] (await k s).0
  unfolding await stat
  await-Wrote zero s = (refl, sym (append-nil s.sysfs.writes))
  await-Wrote (suc k) s =
      let s' = (stat s).0 in
      if_lem {A = ServoController R × Bool} (λ r. Wrote s [] r.0) (stat s).1 (s', true) (await k s')
        (λ e. (refl, sym (append-nil s.sysfs.writes)))
        (λ e.
          Wrote-trans s s' (await k s').0 [] [] (refl, sym (append-nil s.sysfs.writes))
            (await-Wrote k s'))

  -- The four writes that configure a channel.
  abbrev pub config_writes : Doubles R → Longs R → ServoController R → ℕ → List (Bytes × Bytes)
  config_writes D L s ch =
      (chan_dir s ch ++ codes "/duty_cycle", codes "0")
      ∷ (chan_dir s ch ++ codes "/period", L.print s.period_ns)
      ∷ (chan_dir s ch ++ codes "/duty_cycle", L.print (angle_to_duty_ns D L s (D.of_int (pos 90))))
      ∷ (chan_dir s ch ++ codes "/enable", codes "1")
      ∷ []

  -- An export of a channel.
  abbrev pub IsExport : ServoController R → Bytes × Bytes → Type 0
  IsExport s w = w.0 ≡ s.chip_path ++ codes "/export"

  abbrev Exported : ServoController R → ServoController R → Type 0
  Exported s t = (ws : List (Bytes × Bytes)) × (All (IsExport s) ws × Wrote s ws t)

  export_channel-Exported : (s : ServoController R) (ch : ℕ) → Exported s (export_channel s ch).0
  unfolding export_channel stat write_str
  export_channel-Exported s ch =
      let s' = (stat s).0 in
      let path = s.chip_path ++ codes "/export" in
      let (s'', written) = write_str s' path (to_string ch) in
      let one : Wrote s ((path, to_string ch) ∷ []) s'' = (refl, refl) in
      let P : ServoController R × Bool → Type 0 = λ r. Exported s r.0 in
      if_lem P (stat s).1 (s', true) _ (λ e. ([], (tt, (refl, sym (append-nil s.sysfs.writes)))))
        (λ e.
          if_lem P (not written) (s'', false) (await 20 s'') (λ f. (_, ((refl, tt), one)))
            (λ f.
              (_, ((refl, tt), Wrote-trans s s'' (await 20 s'').0 _ [] one (await-Wrote 20 s'')))))

  module _ (D : Doubles R) (L : Longs R) where
    abbrev Configured : ServoController R → ℕ → ServoController R × Bool → Type 0
    Configured s ch r = r.1 ≡ true → Wrote s (config_writes D L s ch) r.0

    config_channel-Configured :
        (s : ServoController R) (ch : ℕ) → Configured s ch (config_channel D L s ch)
    unfolding config_channel set_channel_angle write_str chan_dir angle_to_duty_ns
    config_channel-Configured s ch =
        let dir = chan_dir s ch in
        let s1 = (write_str s (dir ++ codes "/duty_cycle") (codes "0")).0 in
        let (s2, period_set) = write_str s1 (dir ++ codes "/period") (L.print s1.period_ns) in
        let s3 = set_channel_angle D L s2 ch (D.of_int (pos 90)) in
        if_lem (Configured s ch) (not period_set) (s2, false)
          (write_str s3 (dir ++ codes "/enable") (codes "1")) (λ e. λ done. absurd (cc done))
          (λ e. λ done. (refl, snoc_four s.sysfs.writes _ _ _ _))

    -- A step that works after one that works.
    both_lem :
        (f g : ServoController R → ServoController R × Bool) (s : ServoController R)
        → (both D L f g s).1 ≡ true
        → ((f s).1 ≡ true) × (((g (f s).0).1 ≡ true) × ((both D L f g s).0 ≡ (g (f s).0).0))
    both_lem f g s =
        let P : ServoController R × Bool → Type 0 =
          λ r. r.1 ≡ true → ((f s).1 ≡ true) × (((g (f s).0).1 ≡ true) × (r.0 ≡ (g (f s).0).0)) in
        if_lem P (f s).1 (g (f s).0) ((f s).0, false) (λ e done. (e, (done, refl)))
          (λ e done. absurd (cc done))

    export_both : ServoController R → ServoController R × Bool
    export_both =
        both D L (λ t. export_channel t t.pan_channel) (λ t. export_channel t t.tilt_channel)

    config_both : ServoController R → ServoController R × Bool
    config_both =
        both D L (λ t. config_channel D L t t.pan_channel)
          (λ t. config_channel D L t t.tilt_channel)

    Exported-trans : (s t u : ServoController R) → Exported s t → Exported t u → Exported s u
    Exported-trans s t u (vs, (p, a)) (ws, (q, b)) =
        let q' : All (IsExport s) ws = subst (λ x. All (IsExport x) ws) a.0 q in
        (vs ++ ws, (All-append (IsExport s) vs ws p q', Wrote-trans s t u vs ws a b))

    export_both-Exported :
        (s : ServoController R) → (export_both s).1 ≡ true → Exported s (export_both s).0
    unfolding export_both
    export_both-Exported s done =
        let t = (export_channel s s.pan_channel).0 in
        let (e, (f, same)) =
          both_lem (λ u. export_channel u u.pan_channel) (λ u. export_channel u u.tilt_channel) s
            done in
        subst (Exported s) (sym same) (
          Exported-trans s t (export_channel t t.tilt_channel).0
            (export_channel-Exported s s.pan_channel) (export_channel-Exported t t.tilt_channel))

    -- What both configurations write.
    abbrev pub both_configs : ServoController R → List (Bytes × Bytes)
    both_configs s = config_writes D L s s.pan_channel ++ config_writes D L s s.tilt_channel

    config_both-Wrote :
        (s : ServoController R)
        → (config_both s).1 ≡ true
        → Wrote s (both_configs s) (config_both s).0
    unfolding config_both chan_dir angle_to_duty_ns
    config_both-Wrote s done =
        let t = (config_channel D L s s.pan_channel).0 in
        let (e, (f, same)) =
          both_lem (λ u. config_channel D L u u.pan_channel)
            (λ u. config_channel D L u u.tilt_channel) s done in
        let first = config_channel-Configured s s.pan_channel e in
        let second = config_channel-Configured t t.tilt_channel f in
        subst (Wrote s (both_configs s)) (sym same) (
          Wrote-trans s t (config_channel D L t t.tilt_channel).0
            (config_writes D L s s.pan_channel) (config_writes D L s s.tilt_channel) first
            (subst
              (λ x.
                Wrote t (config_writes D L x x.tilt_channel)
                  (config_channel D L t t.tilt_channel).0)
              first.0 second))

    -- What `init` leaves when it works.
    abbrev pub Started : ServoController R → ServoController R × Bool → Type 0
    Started s r =
        r.1 ≡ true
        → (ws : List (Bytes × Bytes)) × (All (IsExport s) ws
            × ((r.0.ready ≡ true) × (r.0.sysfs.writes ≡ s.sysfs.writes ++ (ws ++ both_configs s))))

    -- When `init` works, it writes exports only and then, for the pan channel and for the tilt
    -- channel, a duty of 0, the period, the duty of 90 degrees and the enable, in this order, and
    -- the servos are ready.
    pub init_lem :
        (s : ServoController R)
        → (init D L s).1 ≡ true
        → (ws : List (Bytes × Bytes)) × (All (IsExport s) ws
            × (((init D L s).0.ready ≡ true)
                × ((init D L s).0.sysfs.writes ≡ s.sysfs.writes ++ (ws ++ both_configs s))))
    unfolding init export_both config_both chan_dir angle_to_duty_ns
    init_lem s =
        let r = both D L export_both config_both s in
        let P : ServoController R × Bool → Type 0 = Started s in
        if_lem P r.1 (record r.0 { ready = true }, true) (r.0, false)
          (λ e done.
            let t = (export_both s).0 in
            let (a, (b, same)) = both_lem export_both config_both s e in
            let (ws, (exports, first)) = export_both-Exported s a in
            let second : Wrote t (both_configs s) (config_both t).0 =
              subst (λ x. Wrote t (both_configs x) (config_both t).0) first.0
                (config_both-Wrote t b) in
            let all = Wrote-trans s t (config_both t).0 ws (both_configs s) first second in
            (ws, (exports, (refl, ap (λ x. x.sysfs.writes) same ∙ all.1))))
          (λ e done. absurd (cc done))
