-- ===== src/Lifecycle/Select/Noise.antt =====
-- Log noise does not change a selection (dnsid/c2sp_tlog/stream_verifier.py).
use dnsid_py.Base.{In}
use dnsid_py.Base.{◌≡◌, ◌≢◌, String, false, Option, some, List, Bytes, ◌⊎◌}
use dnsid_py.Base.Result.{Result}
use dnsid_py.Keys.{Jwk}
use dnsid_py.Events.{LogEvent}
use dnsid_py.StreamBundle.{IndexedEntry}
use dnsid_py.Lifecycle.{Options, Decoders, is_text}
use dnsid_py.Lifecycle.Select.{got, failed, limit, Codec}
use dnsid_py.Lifecycle.Select.Unsigned.{IsUnsigned}

module _ (d : Decoders) (opts : Options) (leaf : Bytes → Bytes) (c : Codec) (domain : String)
    (entries : List IndexedEntry) (pin : Jwk) where
  -- An entry that does not decode, one of another domain, or one that decodes but that the identity
  -- has not signed.
  abbrev pub IsNoise : IndexedEntry → Type 0
  IsNoise entry =
      (c.read_public entry.data_bytes ≡ failed)
      ⊎ (((fqdn : Option String) × (c.read_public entry.data_bytes ≡ got fqdn)
            × (is_text fqdn domain ≡ false))
          ⊎ ((fqdn : Option String) × (event : LogEvent) × (c.read_public entry.data_bytes
                ≡ got fqdn)
              × (c.read_event entry.data_bytes ≡ got event)
              × (c.read_chain entry.data_bytes ≢ limit)
              × IsUnsigned d opts leaf c domain entries pin entry.data_bytes event))

  -- An entry of the scan with the same event id signs the same bytes.
  abbrev pub IdAgrees : IndexedEntry → Type 0
  IdAgrees entry =
      (other : IndexedEntry) (id : String)
      → In other entries
      → d.event_id other.data_bytes ≡ some id
      → d.event_id entry.data_bytes ≡ some id
      → d.signed_bytes other.data_bytes ≡ d.signed_bytes entry.data_bytes
