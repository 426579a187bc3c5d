-- ===== src/Masternode/RoundTrip.antt =====
-- What is written to masternode.conf is what a later start reads from it.
use pastelup.Base.{
  Str, str, Bool, true, false, not, [], ◌∷◌, some, inl, inr, ok, lift, ◌>>=◌, >>=-eq-ok, >>-eq-ok,
  lift-eq-ok, decimal, str_eq, str_eq_iff, if◌then◌else◌, ◌||◌, ◌&&◌, ◌≡◌, ◌≢◌, refl, sym, ◌∙◌,
  arith, Bool-cases,
}
use pastelup.Configs.{Config}
use pastelup.Host.{Host}
use pastelup.Masternode.Address.{NoColon, split_on-endpoint}
use pastelup.Masternode.{
  MasterNodeConf, Conf, Codec, lookup, insert, entry_of, address_parts, get_masternode_conf_path,
  backup_master_node_conf_file, write_master_node_conf_file, load_masternode_conf_file,
  existing_conf, create_or_update_masternode_conf, get_masternode_conf_data,
}

pub lookup-insert :
    (name other : Str) (c : MasterNodeConf) (conf : Conf)
    → lookup other (insert name c conf) ≡ (if str_eq name other then some c else lookup other conf)
unfolding lookup insert
lookup-insert name other c [] = refl
lookup-insert name other c ((n, d) ∷ conf) = ground (
  arith,
  str_eq_iff n name,
  str_eq_iff n other,
  str_eq_iff name other,
  lookup-insert name other c conf,
)

pub str_eq_refl : (s : Str) → str_eq s s ≡ true
str_eq_refl s = (str_eq_iff s s).1 refl

-- A file that was written reads back, and reading changes nothing.
pub record StoresFiles {W : Type 0} (host : Host W) : Type 0 where
  pub read-write :
      (path bytes : Str) (w v : W)
      → host.write_file path bytes w ≡ ok tt v
      → host.read_file path v ≡ ok bytes v

-- What is encoded decodes to the same map.
pub record Decodes (codec : Codec) : Type 0 where
  pub unmarshal-marshal :
      (conf : Conf) (bytes : Str)
      → codec.marshal conf ≡ inr bytes
      → codec.unmarshal bytes ≡ inr conf

requested : (create add : Bool) → (create || add) ≡ true → (not create && not add) ≡ false
requested true add h = refl
requested false true h = refl
requested false false h = cc

add-requested : (create add : Bool) → add ≡ true → (create || add) ≡ true
add-requested true add h = refl
add-requested false add h = h

pub str_eq-ne : (a b : Str) → a ≢ b → str_eq a b ≡ false
str_eq-ne a b h = elim (Bool-cases (str_eq a b)) [
  | inl same ↦ absurd (h ((str_eq_iff a b).0 same))
  | inr other ↦ other
]

ok-injective : {W A : Type 0} {w v : W} (a b : A) → ok a w ≡ ok b v → a ≡ b
ok-injective a b h = cc

module _ {W : Type 0} (host : Host W) (codec : Codec) (files : StoresFiles host)
    (decodes : Decodes codec) where
  load-write :
      (config : Config) (conf : Conf) (w v : W)
      → write_master_node_conf_file host codec config conf w ≡ ok tt v
      → load_masternode_conf_file host codec config v ≡ ok conf v
  unfolding write_master_node_conf_file load_masternode_conf_file
  load-write config conf w v h =
      let path =
        get_masternode_conf_path config.network config.working_dir (str "masternode.conf") in
      let (bytes, u, coded, rest) = >>=-eq-ok (lift (codec.marshal conf)) _ w h in
      let (_, u', _, wrote) =
        >>-eq-ok (backup_master_node_conf_file host codec config path) _ u rest in
      rw (files.read-write path bytes u' v wrote, load_masternode_conf_file, ◌>>=◌)
        (rw (decodes.unmarshal-marshal conf bytes (lift-eq-ok (codec.marshal conf) coded).0) refl)

  -- After a successful update, the file holds the new entry and, if it was to be added, the entries
  -- that the file had before.
  pub create_or_update_lem :
      (config : Config) (priv_key tx_id tx_ind pastel_id : Str) (w v : W)
      → (config.create_new_master_node_conf || config.add_to_master_node_conf) ≡ true
      → create_or_update_masternode_conf host codec config priv_key tx_id tx_ind pastel_id w
        ≡ ok tt v
      → (conf : Conf) × (u : W) × (existing_conf host codec config w ≡ ok conf u)
        × (load_masternode_conf_file host codec config v
            ≡ ok
                (insert config.master_node_name
                  (entry_of config priv_key tx_id tx_ind pastel_id)
                  conf)
                v)
  unfolding create_or_update_masternode_conf
  create_or_update_lem config priv_key tx_id tx_ind pastel_id w v flags h =
      let asked =
        requested config.create_new_master_node_conf config.add_to_master_node_conf flags in
      let (conf, u, loaded, wrote) =
        >>=-eq-ok (existing_conf host codec config)
          (λ conf.
            write_master_node_conf_file host codec config (
              insert config.master_node_name (entry_of config priv_key tx_id tx_ind pastel_id)
                conf))
          w (rw asked at h) in
      (conf, u, loaded, load-write config _ u v wrote)

  -- If creating or adding is asked for, the node's external address has no colon, and the update of
  -- masternode.conf succeeds, then the data found for the node's name are the key, the address and
  -- the port that were written, whatever external address is given. Files that are written read
  -- back, and the codec decodes what it encodes.
  pub get_masternode_conf_data-create_or_update :
      (config : Config) (priv_key tx_id tx_ind pastel_id ext_ip : Str) (w v : W)
      → (config.create_new_master_node_conf || config.add_to_master_node_conf) ≡ true
      → NoColon config.node_ext_ip
      → create_or_update_masternode_conf host codec config priv_key tx_id tx_ind pastel_id w
        ≡ ok tt v
      → get_masternode_conf_data host codec config config.master_node_name ext_ip v
        ≡ ok (priv_key, config.node_ext_ip, decimal config.master_node_port) v
  unfolding get_masternode_conf_data address_parts entry_of
  get_masternode_conf_data-create_or_update config priv_key tx_id tx_ind pastel_id ext_ip w v flags
        plain h =
      let (conf, _, _, loads) =
        create_or_update_lem config priv_key tx_id tx_ind pastel_id w v flags h in
      rw (loads, get_masternode_conf_data, ◌>>=◌)
        (rw
          (
            lookup-insert config.master_node_name config.master_node_name _ conf,
            str_eq_refl config.master_node_name,
          )
          (rw (split_on-endpoint config.node_ext_ip config.master_node_port plain, address_parts)
            refl))

  existing_conf-load :
      (config : Config) (w : W)
      → config.add_to_master_node_conf ≡ true
      → existing_conf host codec config w ≡ load_masternode_conf_file host codec config w
  unfolding existing_conf
  existing_conf-load config w add = rw add

  -- If a node is added to a file that can be read and the update succeeds, then for a node of
  -- another name that stands in the file the data found are still its key and the parts of its
  -- address, whatever external address is given. Files that are written read back, and the codec
  -- decodes what it encodes.
  pub get_masternode_conf_data-other :
      (config : Config) (priv_key tx_id tx_ind pastel_id other ext_ip : Str) (conf : Conf)
      (c : MasterNodeConf) (w u v : W)
      → config.add_to_master_node_conf ≡ true
      → load_masternode_conf_file host codec config w ≡ ok conf u
      → lookup other conf ≡ some c
      → other ≢ config.master_node_name
      → create_or_update_masternode_conf host codec config priv_key tx_id tx_ind pastel_id w
        ≡ ok tt v
      → get_masternode_conf_data host codec config other ext_ip v
        ≡ address_parts c.mn_priv_key c.mn_address v
  unfolding get_masternode_conf_data
  get_masternode_conf_data-other config priv_key tx_id tx_ind pastel_id other ext_ip conf c w u v
        add loaded found differs h =
      let (old, u', had, loads) =
        create_or_update_lem config priv_key tx_id tx_ind pastel_id w v
          (add-requested config.create_new_master_node_conf config.add_to_master_node_conf add) h in
      let same : old ≡ conf =
        ok-injective _ _ (sym had ∙ existing_conf-load config w add ∙ loaded) in
      rw (loads, get_masternode_conf_data, ◌>>=◌)
        (rw
          (
            lookup-insert config.master_node_name other _ old,
            str_eq-ne config.master_node_name other (λ e. differs (sym e)),
            same,
            found,
          )
          refl)
