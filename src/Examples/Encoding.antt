-- ===== src/Examples/Encoding.antt =====
-- A codec that decodes what it encodes: each text follows its length.
use pastelup.Base.{
  ℕ, zero, suc, Str, List, [], ◌∷◌, ◌++◌, Error, errorf, ◌⊎◌, inl, inr, ◌≡◌, refl, ap, ◌∙◌, take,
  drop, length,
}
use pastelup.Masternode.{MasterNodeConf, Conf, Codec}
use pastelup.Masternode.RoundTrip.{Decodes}

abbrev put : Str → Str → Str
put s rest = length s ∷ (s ++ rest)

abbrev got : Str → Str × Str
got [] = ([], [])
got (n ∷ rest) = (take n rest, drop n rest)

take-append : (s rest : Str) → take (length s) (s ++ rest) ≡ s
take-append [] rest = refl
take-append (x ∷ s) rest = ap (◌∷◌ x) (take-append s rest)

drop-append : (s rest : Str) → drop (length s) (s ++ rest) ≡ rest
drop-append [] rest = refl
drop-append (x ∷ s) rest = drop-append s rest

got-put : (s rest : Str) → got (put s rest) ≡ (s, rest)
got-put s rest = rw (take-append s rest, drop-append s rest) refl

-- The texts in their order, each behind its length.
abbrev puts : List Str → Str → Str
puts [] rest = rest
puts (s ∷ ss) rest = put s (puts ss rest)

abbrev fields : Str × MasterNodeConf → List Str
fields (n, c) =
    n ∷ c.mn_address ∷ c.mn_priv_key ∷ c.txid ∷ c.out_index ∷ c.ext_address ∷ c.ext_p2p ∷ c.ext_cfg
    ∷ c.ext_key ∷ []

abbrev encode_entries : Conf → Str
encode_entries [] = []
encode_entries (e ∷ conf) = puts (fields e) (encode_entries conf)

-- The next texts, as many as asked for.
abbrev gots : ℕ → Str → List Str × Str
gots zero s = ([], s)
gots (suc n) s = let (t, rest) = got s in let (ts, rest') = gots n rest in (t ∷ ts, rest')

gots-puts : (ss : List Str) (rest : Str) → gots (length ss) (puts ss rest) ≡ (ss, rest)
gots-puts [] rest = refl
gots-puts (s ∷ ss) rest =
    rw (take-append s (puts ss rest), drop-append s (puts ss rest), gots-puts ss rest) refl

abbrev entry_from : List Str → Error ⊎ (Str × MasterNodeConf)
entry_from ts = elim ts [
  | n ∷ a ∷ k ∷ t ∷ o ∷ e ∷ p ∷ c ∷ x ∷ [] ↦ inr (
    n,
    record {
      mn_address = a;
      mn_priv_key = k;
      txid = t;
      out_index = o;
      ext_address = e;
      ext_p2p = p;
      ext_cfg = c;
      ext_key = x;
    },
  )
  | _ ↦ inl (errorf "fields")
]

abbrev with_entry : Error ⊎ (Str × MasterNodeConf) → Error ⊎ Conf → Error ⊎ Conf
with_entry (inl e) r = inl e
with_entry (inr x) (inl e) = inl e
with_entry (inr x) (inr conf) = inr (x ∷ conf)

abbrev decode_entries : ℕ → Str → Error ⊎ Conf
decode_entries zero s = inr []
decode_entries (suc n) s = with_entry (entry_from (gots 9 s).0) (decode_entries n (gots 9 s).1)

decode-encode : (conf : Conf) → decode_entries (length conf) (encode_entries conf) ≡ inr conf
decode-encode [] = refl
decode-encode (e ∷ conf) =
    ap (λ (g : List Str × Str). with_entry (entry_from g.0) (decode_entries (length conf) g.1))
      (gots-puts (fields e) (encode_entries conf))
    ∙ ap (with_entry (inr e)) (decode-encode conf)

abbrev pub sample_codec : Codec
sample_codec = record {
  marshal = λ conf. inr (length conf ∷ encode_entries conf);
  unmarshal = λ s. elim s [ [] ↦ inl (errorf "empty") | n ∷ rest ↦ decode_entries n rest ];
}

pub sample-Decodes : Decodes sample_codec
sample-Decodes = record {
  unmarshal-marshal = λ conf bytes h.
      let same : length conf ∷ encode_entries conf ≡ bytes = cc in rw (← same) (decode-encode conf);
}
