-- ===== src/Registry/Challenge/RoundTrip.antt =====
-- A challenge in the usual form, with every value quoted, is read as it was written.
use imgpull.Base.{
  ℕ, zero, suc, ◌≤◌, ◌≡◌, ◌≢◌, refl, ◌∙◌, false, some, [], ◌∷◌, ◌++◌, Bytes, is_empty,
  is_empty-append, trim_space, to_lower, cut, cut-append, length, length-append, Lacks, All, arith,
  ok,
}
use imgpull.Registry.Challenge.{
  Params, close_quote, unquote, drop_comma, scan_value, scan_pairs, parse_challenge, cut_blank,
}

-- `key="value"`, separated by commas.
abbrev pub render : Params → Bytes
render [] = []
render ((k, v) ∷ []) = k ++ b'=' ∷ (b'"' ∷ (v ++ b'"' ∷ []))
render ((k, v) ∷ p ∷ ps) = k ++ b'=' ∷ (b'"' ∷ (v ++ b'"' ∷ (b',' ∷ render (p ∷ ps))))

-- A key holds no equals sign and needs no trimming; a value holds no quote and no backslash.
pub record IsPlainPair (p : Bytes × Bytes) : Type 0 where
  pub key_plain : Lacks b'=' p.0
  pub key_trimmed : trim_space p.0 ≡ p.0
  pub key_there : is_empty p.0 ≡ false
  pub quote_free : Lacks b'"' p.1
  pub backslash_free : Lacks b'\\' p.1

-- The map that the pairs make, the last one foremost.
abbrev pub collected : Params → Params → Params
collected [] acc = acc
collected ((k, v) ∷ ps) acc = collected ps ((to_lower k, v) ∷ acc)

close_quote-append :
    (prev : ℕ) (v rest : Bytes)
    → prev ≢ b'\\'
    → Lacks b'"' v
    → Lacks b'\\' v
    → close_quote prev (v ++ b'"' ∷ rest) ≡ some (v, rest)
unfolding close_quote
close_quote-append prev [] rest h q b = ground arith
close_quote-append prev (c ∷ v) rest h (qc, qv) (bc, bv) =
    ground (arith, close_quote-append c v rest bc qv bv)

unquote_of_Lacks : (v : Bytes) → Lacks b'\\' v → unquote v ≡ v
unfolding unquote
unquote_of_Lacks [] h = refl
unquote_of_Lacks (c ∷ []) h = refl
unquote_of_Lacks (c ∷ d ∷ s) (hc, hs) = ground (arith, unquote_of_Lacks (d ∷ s) hs)

scan_value_quoted :
    (v rest : Bytes)
    → Lacks b'"' v
    → Lacks b'\\' v
    → scan_value (b'"' ∷ (v ++ b'"' ∷ rest)) ≡ ok (v, drop_comma rest)
unfolding scan_value
scan_value_quoted v rest q b =
    ground (arith, close_quote-append b'"' v rest (omega arith) q b, unquote_of_Lacks v b)

scan_pairs_step :
    (fuel : ℕ) (k v rest : Bytes) (acc : Params)
    → IsPlainPair (k, v)
    → scan_pairs (suc fuel) (k ++ b'=' ∷ (b'"' ∷ (v ++ b'"' ∷ rest))) acc
      ≡ scan_pairs fuel (drop_comma rest) ((to_lower k, v) ∷ acc)
unfolding scan_pairs
scan_pairs_step fuel k v rest acc p =
    rw
      (
        cut-append k (b'"' ∷ (v ++ b'"' ∷ rest)) b'=' p.key_plain,
        scan_pairs,
        scan_value_quoted v rest p.quote_free p.backslash_free,
      )
      (rw (p.key_trimmed, p.key_there))

scan_pairs-nil : (fuel : ℕ) (acc : Params) → scan_pairs fuel [] acc ≡ ok acc
unfolding scan_pairs cut
scan_pairs-nil zero acc = refl
scan_pairs-nil (suc fuel) acc = refl

scan_pairs-render :
    (fuel : ℕ) (ps : Params) (acc : Params)
    → length ps ≤ fuel
    → All IsPlainPair ps
    → scan_pairs fuel (render ps) acc ≡ ok (collected ps acc)
scan_pairs-render fuel [] acc h _ = scan_pairs-nil fuel acc
scan_pairs-render zero (p ∷ ps) acc h _ = elim h [ ]
scan_pairs-render (suc fuel) ((k, v) ∷ []) acc h (hp, _) =
    scan_pairs_step fuel k v [] acc hp ∙ scan_pairs-nil fuel _
scan_pairs-render (suc fuel) ((k, v) ∷ p ∷ ps) acc h (hp, hps) =
    scan_pairs_step fuel k v (b',' ∷ render (p ∷ ps)) acc hp
    ∙ scan_pairs-render fuel (p ∷ ps) ((to_lower k, v) ∷ acc) (omega arith) hps

length-render : (ps : Params) → length ps ≤ length (render ps)
length-render [] = omega arith
length-render ((k, v) ∷ []) = omega (arith, length-append k (b'=' ∷ (b'"' ∷ (v ++ b'"' ∷ []))))
length-render ((k, v) ∷ p ∷ ps) = omega (
  arith,
  length-append k (b'=' ∷ (b'"' ∷ (v ++ b'"' ∷ (b',' ∷ render (p ∷ ps))))),
  length-append v (b'"' ∷ (b',' ∷ render (p ∷ ps))),
  length-render (p ∷ ps),
)

cut_blank-append :
    (s rest : Bytes) → Lacks 32 s → Lacks 9 s → cut_blank (s ++ 32 ∷ rest) ≡ some (s, rest)
unfolding cut_blank
cut_blank-append [] rest h k = ground arith
cut_blank-append (c ∷ s) rest (hc, hs) (kc, ks) = ground (arith, cut_blank-append s rest hs ks)

-- A challenge with a scheme of one word and quoted values is read back, its scheme and its
-- parameters under their names in lower case, a later one hiding an earlier one, if it begins and ends
-- without a blank, its keys are trimmed and hold no equals sign, and its values hold no quote and no
-- backslash.
pub parse_challenge-render :
    (scheme : Bytes) (ps : Params)
    → Lacks 32 scheme
    → Lacks 9 scheme
    → All IsPlainPair ps
    → trim_space (scheme ++ 32 ∷ render ps) ≡ scheme ++ 32 ∷ render ps
    → parse_challenge (scheme ++ 32 ∷ render ps)
      ≡ ok (record { scheme = scheme; params = collected ps [] })
unfolding parse_challenge
parse_challenge-render scheme ps no_space no_tab plain trimmed = rw (
  trimmed,
  is_empty-append scheme 32 (render ps),
  cut_blank-append scheme (render ps) no_space no_tab,
  scan_pairs-render (length (render ps)) ps [] (length-render ps) plain,
)
