-- ===== src/LinkType/Constants.antt =====
-- dlt_generated.go: each exported constant, and the constant of `bpf_wasm` that it converts.
use go_pcapfilter.Prelude.{List, ◌∷◌, [], ◌++◌}
use Prim.Native.String.{String}

abbrev pub link_type_constants_a : List (String × String)
link_type_constants_a =
    ("DLT_NULL", "DLT_NULL")
    ∷ ("DLT_EN10MB", "DLT_EN10MB")
    ∷ ("DLT_EN3MB", "DLT_EN3MB")
    ∷ ("DLT_AX25", "DLT_AX25")
    ∷ ("DLT_PRONET", "DLT_PRONET")
    ∷ ("DLT_CHAOS", "DLT_CHAOS")
    ∷ ("DLT_IEEE802", "DLT_IEEE802")
    ∷ ("DLT_ARCNET", "DLT_ARCNET")
    ∷ ("DLT_SLIP", "DLT_SLIP")
    ∷ ("DLT_PPP", "DLT_PPP")
    ∷ ("DLT_FDDI", "DLT_FDDI")
    ∷ ("DLT_ATM_RFC1483", "DLT_ATM_RFC1483")
    ∷ ("DLT_RAW", "DLT_RAW")
    ∷ ("DLT_SLIP_BSDOS", "DLT_SLIP_BSDOS")
    ∷ ("DLT_PPP_BSDOS", "DLT_PPP_BSDOS")
    ∷ ("DLT_ATM_CLIP", "DLT_ATM_CLIP")
    ∷ ("DLT_REDBACK_SMARTEDGE", "DLT_REDBACK_SMARTEDGE")
    ∷ ("DLT_PPP_SERIAL", "DLT_PPP_SERIAL")
    ∷ ("DLT_PPP_ETHER", "DLT_PPP_ETHER")
    ∷ ("DLT_SYMANTEC_FIREWALL", "DLT_SYMANTEC_FIREWALL")
    ∷ ("DLT_C_HDLC", "DLT_C_HDLC")
    ∷ ("DLT_IEEE802_11", "DLT_IEEE802_11")
    ∷ ("DLT_FRELAY", "DLT_FRELAY")
    ∷ ("DLT_LOOP", "DLT_LOOP")
    ∷ ("DLT_ENC", "DLT_ENC")
    ∷ ("DLT_HDLC", "DLT_HDLC")
    ∷ ("DLT_LINUX_SLL", "DLT_LINUX_SLL")
    ∷ ("DLT_LTALK", "DLT_LTALK")
    ∷ ("DLT_ECONET", "DLT_ECONET")
    ∷ ("DLT_IPFILTER", "DLT_IPFILTER")
    ∷ ("DLT_PFLOG", "DLT_PFLOG")
    ∷ ("DLT_CISCO_IOS", "DLT_CISCO_IOS")
    ∷ ("DLT_PRISM_HEADER", "DLT_PRISM_HEADER")
    ∷ ("DLT_AIRONET_HEADER", "DLT_AIRONET_HEADER")
    ∷ ("DLT_HHDLC", "DLT_HHDLC")
    ∷ ("DLT_IP_OVER_FC", "DLT_IP_OVER_FC")
    ∷ ("DLT_SUNATM", "DLT_SUNATM")
    ∷ ("DLT_RIO", "DLT_RIO")
    ∷ ("DLT_PCI_EXP", "DLT_PCI_EXP")
    ∷ ("DLT_AURORA", "DLT_AURORA")
    ∷ ("DLT_IEEE802_11_RADIO", "DLT_IEEE802_11_RADIO")
    ∷ ("DLT_TZSP", "DLT_TZSP")
    ∷ ("DLT_ARCNET_LINUX", "DLT_ARCNET_LINUX")
    ∷ ("DLT_JUNIPER_MLPPP", "DLT_JUNIPER_MLPPP")
    ∷ ("DLT_JUNIPER_MLFR", "DLT_JUNIPER_MLFR")
    ∷ ("DLT_JUNIPER_ES", "DLT_JUNIPER_ES")
    ∷ ("DLT_JUNIPER_GGSN", "DLT_JUNIPER_GGSN")
    ∷ ("DLT_JUNIPER_MFR", "DLT_JUNIPER_MFR")
    ∷ ("DLT_JUNIPER_ATM2", "DLT_JUNIPER_ATM2")
    ∷ ("DLT_JUNIPER_SERVICES", "DLT_JUNIPER_SERVICES")
    ∷ ("DLT_JUNIPER_ATM1", "DLT_JUNIPER_ATM1")
    ∷ ("DLT_APPLE_IP_OVER_IEEE1394", "DLT_APPLE_IP_OVER_IEEE1394")
    ∷ ("DLT_MTP2_WITH_PHDR", "DLT_MTP2_WITH_PHDR")
    ∷ ("DLT_MTP2", "DLT_MTP2")
    ∷ ("DLT_MTP3", "DLT_MTP3")
    ∷ ("DLT_SCCP", "DLT_SCCP")
    ∷ ("DLT_DOCSIS", "DLT_DOCSIS")
    ∷ ("DLT_LINUX_IRDA", "DLT_LINUX_IRDA")
    ∷ ("DLT_IBM_SP", "DLT_IBM_SP")
    ∷ ("DLT_IBM_SN", "DLT_IBM_SN")
    ∷ []

abbrev pub link_type_constants_b : List (String × String)
link_type_constants_b =
    ("DLT_USER0", "DLT_USER0")
    ∷ ("DLT_USER1", "DLT_USER1")
    ∷ ("DLT_USER2", "DLT_USER2")
    ∷ ("DLT_USER3", "DLT_USER3")
    ∷ ("DLT_USER4", "DLT_USER4")
    ∷ ("DLT_USER5", "DLT_USER5")
    ∷ ("DLT_USER6", "DLT_USER6")
    ∷ ("DLT_USER7", "DLT_USER7")
    ∷ ("DLT_USER8", "DLT_USER8")
    ∷ ("DLT_USER9", "DLT_USER9")
    ∷ ("DLT_USER10", "DLT_USER10")
    ∷ ("DLT_USER11", "DLT_USER11")
    ∷ ("DLT_USER12", "DLT_USER12")
    ∷ ("DLT_USER13", "DLT_USER13")
    ∷ ("DLT_USER14", "DLT_USER14")
    ∷ ("DLT_USER15", "DLT_USER15")
    ∷ ("DLT_IEEE802_11_RADIO_AVS", "DLT_IEEE802_11_RADIO_AVS")
    ∷ ("DLT_JUNIPER_MONITOR", "DLT_JUNIPER_MONITOR")
    ∷ ("DLT_BACNET_MS_TP", "DLT_BACNET_MS_TP")
    ∷ ("DLT_PPP_PPPD", "DLT_PPP_PPPD")
    ∷ ("DLT_JUNIPER_PPPOE", "DLT_JUNIPER_PPPOE")
    ∷ ("DLT_JUNIPER_PPPOE_ATM", "DLT_JUNIPER_PPPOE_ATM")
    ∷ ("DLT_GPRS_LLC", "DLT_GPRS_LLC")
    ∷ ("DLT_GPF_T", "DLT_GPF_T")
    ∷ ("DLT_GPF_F", "DLT_GPF_F")
    ∷ ("DLT_GCOM_T1E1", "DLT_GCOM_T1E1")
    ∷ ("DLT_GCOM_SERIAL", "DLT_GCOM_SERIAL")
    ∷ ("DLT_JUNIPER_PIC_PEER", "DLT_JUNIPER_PIC_PEER")
    ∷ ("DLT_ERF_ETH", "DLT_ERF_ETH")
    ∷ ("DLT_ERF_POS", "DLT_ERF_POS")
    ∷ ("DLT_LINUX_LAPD", "DLT_LINUX_LAPD")
    ∷ ("DLT_JUNIPER_ETHER", "DLT_JUNIPER_ETHER")
    ∷ ("DLT_JUNIPER_PPP", "DLT_JUNIPER_PPP")
    ∷ ("DLT_JUNIPER_FRELAY", "DLT_JUNIPER_FRELAY")
    ∷ ("DLT_JUNIPER_CHDLC", "DLT_JUNIPER_CHDLC")
    ∷ ("DLT_MFR", "DLT_MFR")
    ∷ ("DLT_JUNIPER_VP", "DLT_JUNIPER_VP")
    ∷ ("DLT_A429", "DLT_A429")
    ∷ ("DLT_A653_ICM", "DLT_A653_ICM")
    ∷ ("DLT_USB", "DLT_USB")
    ∷ ("DLT_USB_FREEBSD", "DLT_USB_FREEBSD")
    ∷ ("DLT_BLUETOOTH_HCI_H4", "DLT_BLUETOOTH_HCI_H4")
    ∷ ("DLT_IEEE802_16_MAC_CPS", "DLT_IEEE802_16_MAC_CPS")
    ∷ ("DLT_USB_LINUX", "DLT_USB_LINUX")
    ∷ ("DLT_CAN20B", "DLT_CAN20B")
    ∷ ("DLT_IEEE802_15_4_LINUX", "DLT_IEEE802_15_4_LINUX")
    ∷ ("DLT_PPI", "DLT_PPI")
    ∷ ("DLT_IEEE802_16_MAC_CPS_RADIO", "DLT_IEEE802_16_MAC_CPS_RADIO")
    ∷ ("DLT_JUNIPER_ISM", "DLT_JUNIPER_ISM")
    ∷ ("DLT_IEEE802_15_4_WITHFCS", "DLT_IEEE802_15_4_WITHFCS")
    ∷ ("DLT_SITA", "DLT_SITA")
    ∷ ("DLT_ERF", "DLT_ERF")
    ∷ ("DLT_RAIF1", "DLT_RAIF1")
    ∷ ("DLT_IPMB_KONTRON", "DLT_IPMB_KONTRON")
    ∷ ("DLT_JUNIPER_ST", "DLT_JUNIPER_ST")
    ∷ ("DLT_BLUETOOTH_HCI_H4_WITH_PHDR", "DLT_BLUETOOTH_HCI_H4_WITH_PHDR")
    ∷ ("DLT_AX25_KISS", "DLT_AX25_KISS")
    ∷ ("DLT_LAPD", "DLT_LAPD")
    ∷ ("DLT_PPP_WITH_DIR", "DLT_PPP_WITH_DIR")
    ∷ ("DLT_C_HDLC_WITH_DIR", "DLT_C_HDLC_WITH_DIR")
    ∷ []

abbrev pub link_type_constants_c : List (String × String)
link_type_constants_c =
    ("DLT_FRELAY_WITH_DIR", "DLT_FRELAY_WITH_DIR")
    ∷ ("DLT_LAPB_WITH_DIR", "DLT_LAPB_WITH_DIR")
    ∷ ("DLT_I2C_LINUX", "DLT_I2C_LINUX")
    ∷ ("DLT_IPMB_LINUX", "DLT_IPMB_LINUX")
    ∷ ("DLT_FLEXRAY", "DLT_FLEXRAY")
    ∷ ("DLT_MOST", "DLT_MOST")
    ∷ ("DLT_LIN", "DLT_LIN")
    ∷ ("DLT_X2E_SERIAL", "DLT_X2E_SERIAL")
    ∷ ("DLT_X2E_XORAYA", "DLT_X2E_XORAYA")
    ∷ ("DLT_IEEE802_15_4_NONASK_PHY", "DLT_IEEE802_15_4_NONASK_PHY")
    ∷ ("DLT_LINUX_EVDEV", "DLT_LINUX_EVDEV")
    ∷ ("DLT_GSMTAP_UM", "DLT_GSMTAP_UM")
    ∷ ("DLT_GSMTAP_ABIS", "DLT_GSMTAP_ABIS")
    ∷ ("DLT_MPLS", "DLT_MPLS")
    ∷ ("DLT_USB_LINUX_MMAPPED", "DLT_USB_LINUX_MMAPPED")
    ∷ ("DLT_DECT", "DLT_DECT")
    ∷ ("DLT_AOS", "DLT_AOS")
    ∷ ("DLT_WIHART", "DLT_WIHART")
    ∷ ("DLT_FC_2", "DLT_FC_2")
    ∷ ("DLT_FC_2_WITH_FRAME_DELIMS", "DLT_FC_2_WITH_FRAME_DELIMS")
    ∷ ("DLT_IPNET", "DLT_IPNET")
    ∷ ("DLT_CAN_SOCKETCAN", "DLT_CAN_SOCKETCAN")
    ∷ ("DLT_IPV4", "DLT_IPV4")
    ∷ ("DLT_IPV6", "DLT_IPV6")
    ∷ ("DLT_IEEE802_15_4_NOFCS", "DLT_IEEE802_15_4_NOFCS")
    ∷ ("DLT_DBUS", "DLT_DBUS")
    ∷ ("DLT_JUNIPER_VS", "DLT_JUNIPER_VS")
    ∷ ("DLT_JUNIPER_SRX_E2E", "DLT_JUNIPER_SRX_E2E")
    ∷ ("DLT_JUNIPER_FIBRECHANNEL", "DLT_JUNIPER_FIBRECHANNEL")
    ∷ ("DLT_DVB_CI", "DLT_DVB_CI")
    ∷ ("DLT_MUX27010", "DLT_MUX27010")
    ∷ ("DLT_STANAG_5066_D_PDU", "DLT_STANAG_5066_D_PDU")
    ∷ ("DLT_JUNIPER_ATM_CEMIC", "DLT_JUNIPER_ATM_CEMIC")
    ∷ ("DLT_NFLOG", "DLT_NFLOG")
    ∷ ("DLT_NETANALYZER", "DLT_NETANALYZER")
    ∷ ("DLT_NETANALYZER_TRANSPARENT", "DLT_NETANALYZER_TRANSPARENT")
    ∷ ("DLT_IPOIB", "DLT_IPOIB")
    ∷ ("DLT_MPEG_2_TS", "DLT_MPEG_2_TS")
    ∷ ("DLT_NG40", "DLT_NG40")
    ∷ ("DLT_NFC_LLCP", "DLT_NFC_LLCP")
    ∷ ("DLT_PFSYNC", "DLT_PFSYNC")
    ∷ ("DLT_INFINIBAND", "DLT_INFINIBAND")
    ∷ ("DLT_SCTP", "DLT_SCTP")
    ∷ ("DLT_USBPCAP", "DLT_USBPCAP")
    ∷ ("DLT_RTAC_SERIAL", "DLT_RTAC_SERIAL")
    ∷ ("DLT_BLUETOOTH_LE_LL", "DLT_BLUETOOTH_LE_LL")
    ∷ ("DLT_WIRESHARK_UPPER_PDU", "DLT_WIRESHARK_UPPER_PDU")
    ∷ ("DLT_NETLINK", "DLT_NETLINK")
    ∷ ("DLT_BLUETOOTH_LINUX_MONITOR", "DLT_BLUETOOTH_LINUX_MONITOR")
    ∷ ("DLT_BLUETOOTH_BREDR_BB", "DLT_BLUETOOTH_BREDR_BB")
    ∷ ("DLT_BLUETOOTH_LE_LL_WITH_PHDR", "DLT_BLUETOOTH_LE_LL_WITH_PHDR")
    ∷ ("DLT_PROFIBUS_DL", "DLT_PROFIBUS_DL")
    ∷ ("DLT_PKTAP", "DLT_PKTAP")
    ∷ ("DLT_EPON", "DLT_EPON")
    ∷ ("DLT_IPMI_HPM_2", "DLT_IPMI_HPM_2")
    ∷ ("DLT_ZWAVE_R1_R2", "DLT_ZWAVE_R1_R2")
    ∷ ("DLT_ZWAVE_R3", "DLT_ZWAVE_R3")
    ∷ ("DLT_WATTSTOPPER_DLM", "DLT_WATTSTOPPER_DLM")
    ∷ ("DLT_ISO_14443", "DLT_ISO_14443")
    ∷ ("DLT_RDS", "DLT_RDS")
    ∷ []

abbrev pub link_type_constants_d : List (String × String)
link_type_constants_d =
    ("DLT_USB_DARWIN", "DLT_USB_DARWIN")
    ∷ ("DLT_OPENFLOW", "DLT_OPENFLOW")
    ∷ ("DLT_SDLC", "DLT_SDLC")
    ∷ ("DLT_TI_LLN_SNIFFER", "DLT_TI_LLN_SNIFFER")
    ∷ ("DLT_LORATAP", "DLT_LORATAP")
    ∷ ("DLT_VSOCK", "DLT_VSOCK")
    ∷ ("DLT_NORDIC_BLE", "DLT_NORDIC_BLE")
    ∷ ("DLT_DOCSIS31_XRA31", "DLT_DOCSIS31_XRA31")
    ∷ ("DLT_ETHERNET_MPACKET", "DLT_ETHERNET_MPACKET")
    ∷ ("DLT_DISPLAYPORT_AUX", "DLT_DISPLAYPORT_AUX")
    ∷ ("DLT_LINUX_SLL2", "DLT_LINUX_SLL2")
    ∷ ("DLT_SERCOS_MONITOR", "DLT_SERCOS_MONITOR")
    ∷ ("DLT_OPENVIZSLA", "DLT_OPENVIZSLA")
    ∷ ("DLT_EBHSCR", "DLT_EBHSCR")
    ∷ ("DLT_VPP_DISPATCH", "DLT_VPP_DISPATCH")
    ∷ ("DLT_DSA_TAG_BRCM", "DLT_DSA_TAG_BRCM")
    ∷ ("DLT_DSA_TAG_BRCM_PREPEND", "DLT_DSA_TAG_BRCM_PREPEND")
    ∷ ("DLT_IEEE802_15_4_TAP", "DLT_IEEE802_15_4_TAP")
    ∷ ("DLT_DSA_TAG_DSA", "DLT_DSA_TAG_DSA")
    ∷ ("DLT_DSA_TAG_EDSA", "DLT_DSA_TAG_EDSA")
    ∷ ("DLT_ELEE", "DLT_ELEE")
    ∷ ("DLT_Z_WAVE_SERIAL", "DLT_Z_WAVE_SERIAL")
    ∷ ("DLT_USB_2_0", "DLT_USB_2_0")
    ∷ ("DLT_ATSC_ALP", "DLT_ATSC_ALP")
    ∷ ("DLT_ETW", "DLT_ETW")
    ∷ ("DLT_NETANALYZER_NG", "DLT_NETANALYZER_NG")
    ∷ ("DLT_ZBOSS_NCP", "DLT_ZBOSS_NCP")
    ∷ ("DLT_USB_2_0_LOW_SPEED", "DLT_USB_2_0_LOW_SPEED")
    ∷ ("DLT_USB_2_0_FULL_SPEED", "DLT_USB_2_0_FULL_SPEED")
    ∷ ("DLT_USB_2_0_HIGH_SPEED", "DLT_USB_2_0_HIGH_SPEED")
    ∷ ("DLT_AUERSWALD_LOG", "DLT_AUERSWALD_LOG")
    ∷ ("DLT_ZWAVE_TAP", "DLT_ZWAVE_TAP")
    ∷ ("DLT_SILABS_DEBUG_CHANNEL", "DLT_SILABS_DEBUG_CHANNEL")
    ∷ ("DLT_FIRA_UCI", "DLT_FIRA_UCI")
    ∷ ("DLT_MDB", "DLT_MDB")
    ∷ ("DLT_DECT_NR", "DLT_DECT_NR")
    ∷ ("DLT_EDK2_MM", "DLT_EDK2_MM")
    ∷ ("DLT_DEBUG_ONLY", "DLT_DEBUG_ONLY")
    ∷ ("DLT_DECT_NR_TAP", "DLT_DECT_NR_TAP")
    ∷ []

unfoldable pub link_type_constants : List (String × String)
link_type_constants =
    link_type_constants_a
    ++ (link_type_constants_b ++ (link_type_constants_c ++ (link_type_constants_d)))
