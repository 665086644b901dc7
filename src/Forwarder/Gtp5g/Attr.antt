-- ===== src/Forwarder/Gtp5g/Attr.antt =====
-- internal/forwarder/gtp5g.go: the netlink attributes that it builds, and the constants of
-- go-gtp5gnl and go-pfcp that it names.
use go_upf.Base.{ℕ, ◌%◌, ◌^◌, String, Bytes}

-- The types of attributes, by the names of go-gtp5gnl.
pub data AttrType : Type 0 where
  flow_description_action flow_description_direction flow_description_protocol : AttrType
  flow_description_src_ipv4 flow_description_src_mask flow_description_src_port : AttrType
  flow_description_dest_ipv4 flow_description_dest_mask flow_description_dest_port : AttrType
  sdf_filter_flow_description sdf_filter_tos_traffic_class : AttrType
  sdf_filter_security_parameter_index sdf_filter_flow_label sdf_filter_sdf_filter_id : AttrType
  pdi_src_intf pdi_f_teid pdi_ue_addr_ipv4 pdi_sdf_filter : AttrType
  f_teid_i_teid f_teid_gtpu_addr_ipv4 : AttrType
  pdr_precedence pdr_pdi pdr_outer_header_removal pdr_far_id pdr_qer_id pdr_urr_id : AttrType
  pdr_unix_socket_path : AttrType
  outer_header_creation_description outer_header_creation_o_teid : AttrType
  outer_header_creation_port outer_header_creation_peer_addr_ipv4 : AttrType
  forwarding_parameter_outer_header_creation : AttrType
  forwarding_parameter_forwarding_policy forwarding_parameter_pfcpsm_req_flags : AttrType
  far_apply_action far_forwarding_parameter far_bar_id : AttrType
  qer_corr_id qer_gate qer_mbr qer_gbr qer_qfi qer_rqi qer_ppi : AttrType
  qer_mbr_ul_high32 qer_mbr_ul_low8 qer_mbr_dl_high32 qer_mbr_dl_low8 : AttrType
  qer_gbr_ul_high32 qer_gbr_ul_low8 qer_gbr_dl_high32 qer_gbr_dl_low8 : AttrType
  urr_volume_threshold_flag urr_volume_threshold_tovol : AttrType
  urr_volume_threshold_uvol urr_volume_threshold_dvol : AttrType
  urr_volume_quota_flag urr_volume_quota_tovol urr_volume_quota_uvol urr_volume_quota_dvol :
      AttrType
  urr_measurement_method urr_reporting_trigger urr_measurement_period urr_measurement_info :
      AttrType
  urr_volume_threshold urr_volume_quota : AttrType
  bar_downlink_data_notification_delay bar_buffering_packets_count : AttrType

-- `nl.Attr` and the values that `nl.AttrU8` and so on make, and `nl.AttrList`.
mutual
  pub data AttrValue : Type 0 where
    u8 u16 u32 u64 : ℕ → AttrValue
    bytes : Bytes → AttrValue
    text : String → AttrValue
    nested : AttrList → AttrValue

  pub data AttrList : Type 0 where
    no_attrs : AttrList
    attr : AttrType → AttrValue → AttrList → AttrList

-- `append`.
infixr 20 ◌+++◌
abbrev pub ◌+++◌ : AttrList → AttrList → AttrList
no_attrs +++ bs = bs
attr t v ats +++ bs = attr t v (ats +++ bs)

abbrev pub one_attr : AttrType → AttrValue → AttrList
one_attr t v = attr t v no_attrs

-- The conversions `nl.AttrU8(x)`, `nl.AttrU16(x)` and `nl.AttrU32(x)` of a wider number.
abbrev pub low8 : ℕ → AttrValue
low8 x = u8 (x % 256)

abbrev pub low16 : ℕ → AttrValue
low16 x = u16 (x % 2 ^ 16)

abbrev pub low32 : ℕ → AttrValue
low32 x = u32 (x % 2 ^ 32)

pub record Constants : Type 0 where
  pub sdf_filter_permit : ℕ
  pub sdf_filter_in : ℕ
  pub sdf_filter_out : ℕ
  pub pdr_addr_for_netlink : String
  pub src_interface_access : ℕ
