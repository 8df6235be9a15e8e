-- ===== src/Builders/ClickhouseS3.antt =====
-- controller/clickhouse.go: the part of the ClickHouse configuration that is about S3.
use Prim.Native.String.{◌++◌}
use mathlib.Core.List.{◌++◌ as append}
use telemetry_operator.Base.{String, Option, none, some, List, [], ◌∷◌, ◌==◌, if◌then◌else◌}

-- s3ConfigParams
pub record S3ConfigParams : Type 0 where
  pub endpoint : String
  pub region : String
  pub cache_size : String
  pub mode : String
  pub move_factor : String

abbrev region_lines : S3ConfigParams → List String
region_lines s =
    if s.region == "" then [] else ("            <region>" ++ s.region ++ "</region>") ∷ []

abbrev policy_lines : S3ConfigParams → List String
policy_lines s =
    if s.mode == "tiered"
    then "        <s3_tiered>"
      ∷ "            <volumes>"
      ∷ "                <hot>"
      ∷ "                    <disk>default</disk>"
      ∷ "                </hot>"
      ∷ "                <cold>"
      ∷ "                    <disk>s3_cache</disk>"
      ∷ "                    <perform_ttl_move_on_insert>false</perform_ttl_move_on_insert>"
      ∷ "\t\t\t\t\t<prefer_not_to_merge>false</prefer_not_to_merge>"
      ∷ "                </cold>"
      ∷ "            </volumes>"
      ∷ ("            <move_factor>" ++ s.move_factor ++ "</move_factor>")
      ∷ "        </s3_tiered>"
      ∷ []
    else "        <s3_s3only>" ∷ "            <volumes>" ∷ "                <main>"
      ∷ "                    <disk>s3_cache</disk>" ∷ "                </main>"
      ∷ "            </volumes>" ∷ "        </s3_s3only>" ∷ []

abbrev pub s3_lines : Option S3ConfigParams → List String
s3_lines none = []
s3_lines (some s) =
    append
      (""
        ∷ "<merge_tree>"
        ∷ "    <allow_remote_fs_zero_copy_replication>false</allow_remote_fs_zero_copy_replication>"
        ∷ ("    <storage_policy>s3_" ++ s.mode ++ "</storage_policy>")
        ∷ "</merge_tree>"
        ∷ ""
        ∷ "<storage_configuration>"
        ∷ "    <disks>"
        ∷ "        <s3_disk>"
        ∷ "            <type>s3</type>"
        ∷ ("            <endpoint>" ++ s.endpoint ++ "{shard}/{replica}/</endpoint>")
        ∷ [])
      (append (region_lines s) (
        append
          ("            <use_environment_credentials>true</use_environment_credentials>"
            ∷ "        </s3_disk>"
            ∷ "        <s3_cache>"
            ∷ "            <type>cache</type>"
            ∷ "            <disk>s3_disk</disk>"
            ∷ "            <path>/var/lib/clickhouse/s3_cache/</path>"
            ∷ ("            <max_size>" ++ s.cache_size ++ "</max_size>")
            ∷ "            <cache_on_write_operations>1</cache_on_write_operations>"
            ∷ "        </s3_cache>"
            ∷ "    </disks>"
            ∷ "    <policies>"
            ∷ [])
          (append (policy_lines s) ("    </policies>" ∷ "</storage_configuration>" ∷ []))))
