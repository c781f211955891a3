-- ===== src/LinkType/Cases.antt =====
-- dlt_generated.go, `LookupLinkType`: each case of the switch, and the constant that it returns.
use go_pcapfilter.Prelude.{List, ◌∷◌, [], ◌++◌}
use Prim.Native.String.{String}

abbrev pub lookup_cases_a : List (String × String)
lookup_cases_a =
    ("NULL", "DLT_NULL")
    ∷ ("EN10MB", "DLT_EN10MB")
    ∷ ("EN3MB", "DLT_EN3MB")
    ∷ ("AX25", "DLT_AX25")
    ∷ ("PRONET", "DLT_PRONET")
    ∷ ("CHAOS", "DLT_CHAOS")
    ∷ ("IEEE802", "DLT_IEEE802")
    ∷ ("ARCNET", "DLT_ARCNET")
    ∷ ("SLIP", "DLT_SLIP")
    ∷ ("PPP", "DLT_PPP")
    ∷ ("FDDI", "DLT_FDDI")
    ∷ ("ATM_RFC1483", "DLT_ATM_RFC1483")
    ∷ ("RAW", "DLT_RAW")
    ∷ ("SLIP_BSDOS", "DLT_SLIP_BSDOS")
    ∷ ("PPP_BSDOS", "DLT_PPP_BSDOS")
    ∷ ("ATM_CLIP", "DLT_ATM_CLIP")
    ∷ ("REDBACK_SMARTEDGE", "DLT_REDBACK_SMARTEDGE")
    ∷ ("PPP_SERIAL", "DLT_PPP_SERIAL")
    ∷ ("PPP_ETHER", "DLT_PPP_ETHER")
    ∷ ("SYMANTEC_FIREWALL", "DLT_SYMANTEC_FIREWALL")
    ∷ ("C_HDLC", "DLT_C_HDLC")
    ∷ ("IEEE802_11", "DLT_IEEE802_11")
    ∷ ("FRELAY", "DLT_FRELAY")
    ∷ ("LOOP", "DLT_LOOP")
    ∷ ("ENC", "DLT_ENC")
    ∷ ("HDLC", "DLT_HDLC")
    ∷ ("LINUX_SLL", "DLT_LINUX_SLL")
    ∷ ("LTALK", "DLT_LTALK")
    ∷ ("ECONET", "DLT_ECONET")
    ∷ ("IPFILTER", "DLT_IPFILTER")
    ∷ ("PFLOG", "DLT_PFLOG")
    ∷ ("CISCO_IOS", "DLT_CISCO_IOS")
    ∷ ("PRISM_HEADER", "DLT_PRISM_HEADER")
    ∷ ("AIRONET_HEADER", "DLT_AIRONET_HEADER")
    ∷ ("HHDLC", "DLT_HHDLC")
    ∷ ("IP_OVER_FC", "DLT_IP_OVER_FC")
    ∷ ("SUNATM", "DLT_SUNATM")
    ∷ ("RIO", "DLT_RIO")
    ∷ ("PCI_EXP", "DLT_PCI_EXP")
    ∷ ("AURORA", "DLT_AURORA")
    ∷ ("IEEE802_11_RADIO", "DLT_IEEE802_11_RADIO")
    ∷ ("TZSP", "DLT_TZSP")
    ∷ ("ARCNET_LINUX", "DLT_ARCNET_LINUX")
    ∷ ("JUNIPER_MLPPP", "DLT_JUNIPER_MLPPP")
    ∷ ("JUNIPER_MLFR", "DLT_JUNIPER_MLFR")
    ∷ ("JUNIPER_ES", "DLT_JUNIPER_ES")
    ∷ ("JUNIPER_GGSN", "DLT_JUNIPER_GGSN")
    ∷ ("JUNIPER_MFR", "DLT_JUNIPER_MFR")
    ∷ ("JUNIPER_ATM2", "DLT_JUNIPER_ATM2")
    ∷ ("JUNIPER_SERVICES", "DLT_JUNIPER_SERVICES")
    ∷ ("JUNIPER_ATM1", "DLT_JUNIPER_ATM1")
    ∷ ("APPLE_IP_OVER_IEEE1394", "DLT_APPLE_IP_OVER_IEEE1394")
    ∷ ("MTP2_WITH_PHDR", "DLT_MTP2_WITH_PHDR")
    ∷ ("MTP2", "DLT_MTP2")
    ∷ ("MTP3", "DLT_MTP3")
    ∷ ("SCCP", "DLT_SCCP")
    ∷ ("DOCSIS", "DLT_DOCSIS")
    ∷ ("LINUX_IRDA", "DLT_LINUX_IRDA")
    ∷ ("IBM_SP", "DLT_IBM_SP")
    ∷ ("IBM_SN", "DLT_IBM_SN")
    ∷ []

abbrev pub lookup_cases_b : List (String × String)
lookup_cases_b =
    ("USER0", "DLT_USER0")
    ∷ ("USER1", "DLT_USER1")
    ∷ ("USER2", "DLT_USER2")
    ∷ ("USER3", "DLT_USER3")
    ∷ ("USER4", "DLT_USER4")
    ∷ ("USER5", "DLT_USER5")
    ∷ ("USER6", "DLT_USER6")
    ∷ ("USER7", "DLT_USER7")
    ∷ ("USER8", "DLT_USER8")
    ∷ ("USER9", "DLT_USER9")
    ∷ ("USER10", "DLT_USER10")
    ∷ ("USER11", "DLT_USER11")
    ∷ ("USER12", "DLT_USER12")
    ∷ ("USER13", "DLT_USER13")
    ∷ ("USER14", "DLT_USER14")
    ∷ ("USER15", "DLT_USER15")
    ∷ ("IEEE802_11_RADIO_AVS", "DLT_IEEE802_11_RADIO_AVS")
    ∷ ("JUNIPER_MONITOR", "DLT_JUNIPER_MONITOR")
    ∷ ("BACNET_MS_TP", "DLT_BACNET_MS_TP")
    ∷ ("PPP_PPPD", "DLT_PPP_PPPD")
    ∷ ("JUNIPER_PPPOE", "DLT_JUNIPER_PPPOE")
    ∷ ("JUNIPER_PPPOE_ATM", "DLT_JUNIPER_PPPOE_ATM")
    ∷ ("GPRS_LLC", "DLT_GPRS_LLC")
    ∷ ("GPF_T", "DLT_GPF_T")
    ∷ ("GPF_F", "DLT_GPF_F")
    ∷ ("GCOM_T1E1", "DLT_GCOM_T1E1")
    ∷ ("GCOM_SERIAL", "DLT_GCOM_SERIAL")
    ∷ ("JUNIPER_PIC_PEER", "DLT_JUNIPER_PIC_PEER")
    ∷ ("ERF_ETH", "DLT_ERF_ETH")
    ∷ ("ERF_POS", "DLT_ERF_POS")
    ∷ ("LINUX_LAPD", "DLT_LINUX_LAPD")
    ∷ ("JUNIPER_ETHER", "DLT_JUNIPER_ETHER")
    ∷ ("JUNIPER_PPP", "DLT_JUNIPER_PPP")
    ∷ ("JUNIPER_FRELAY", "DLT_JUNIPER_FRELAY")
    ∷ ("JUNIPER_CHDLC", "DLT_JUNIPER_CHDLC")
    ∷ ("MFR", "DLT_MFR")
    ∷ ("JUNIPER_VP", "DLT_JUNIPER_VP")
    ∷ ("A429", "DLT_A429")
    ∷ ("A653_ICM", "DLT_A653_ICM")
    ∷ ("USB", "DLT_USB")
    ∷ ("USB_FREEBSD", "DLT_USB_FREEBSD")
    ∷ ("BLUETOOTH_HCI_H4", "DLT_BLUETOOTH_HCI_H4")
    ∷ ("IEEE802_16_MAC_CPS", "DLT_IEEE802_16_MAC_CPS")
    ∷ ("USB_LINUX", "DLT_USB_LINUX")
    ∷ ("CAN20B", "DLT_CAN20B")
    ∷ ("IEEE802_15_4_LINUX", "DLT_IEEE802_15_4_LINUX")
    ∷ ("PPI", "DLT_PPI")
    ∷ ("IEEE802_16_MAC_CPS_RADIO", "DLT_IEEE802_16_MAC_CPS_RADIO")
    ∷ ("JUNIPER_ISM", "DLT_JUNIPER_ISM")
    ∷ ("IEEE802_15_4_WITHFCS", "DLT_IEEE802_15_4_WITHFCS")
    ∷ ("SITA", "DLT_SITA")
    ∷ ("ERF", "DLT_ERF")
    ∷ ("RAIF1", "DLT_RAIF1")
    ∷ ("IPMB_KONTRON", "DLT_IPMB_KONTRON")
    ∷ ("JUNIPER_ST", "DLT_JUNIPER_ST")
    ∷ ("BLUETOOTH_HCI_H4_WITH_PHDR", "DLT_BLUETOOTH_HCI_H4_WITH_PHDR")
    ∷ ("AX25_KISS", "DLT_AX25_KISS")
    ∷ ("LAPD", "DLT_LAPD")
    ∷ ("PPP_WITH_DIR", "DLT_PPP_WITH_DIR")
    ∷ ("C_HDLC_WITH_DIR", "DLT_C_HDLC_WITH_DIR")
    ∷ []

abbrev pub lookup_cases_c : List (String × String)
lookup_cases_c =
    ("FRELAY_WITH_DIR", "DLT_FRELAY_WITH_DIR")
    ∷ ("LAPB_WITH_DIR", "DLT_LAPB_WITH_DIR")
    ∷ ("I2C_LINUX", "DLT_I2C_LINUX")
    ∷ ("IPMB_LINUX", "DLT_IPMB_LINUX")
    ∷ ("FLEXRAY", "DLT_FLEXRAY")
    ∷ ("MOST", "DLT_MOST")
    ∷ ("LIN", "DLT_LIN")
    ∷ ("X2E_SERIAL", "DLT_X2E_SERIAL")
    ∷ ("X2E_XORAYA", "DLT_X2E_XORAYA")
    ∷ ("IEEE802_15_4_NONASK_PHY", "DLT_IEEE802_15_4_NONASK_PHY")
    ∷ ("LINUX_EVDEV", "DLT_LINUX_EVDEV")
    ∷ ("GSMTAP_UM", "DLT_GSMTAP_UM")
    ∷ ("GSMTAP_ABIS", "DLT_GSMTAP_ABIS")
    ∷ ("MPLS", "DLT_MPLS")
    ∷ ("USB_LINUX_MMAPPED", "DLT_USB_LINUX_MMAPPED")
    ∷ ("DECT", "DLT_DECT")
    ∷ ("AOS", "DLT_AOS")
    ∷ ("WIHART", "DLT_WIHART")
    ∷ ("FC_2", "DLT_FC_2")
    ∷ ("FC_2_WITH_FRAME_DELIMS", "DLT_FC_2_WITH_FRAME_DELIMS")
    ∷ ("IPNET", "DLT_IPNET")
    ∷ ("CAN_SOCKETCAN", "DLT_CAN_SOCKETCAN")
    ∷ ("IPV4", "DLT_IPV4")
    ∷ ("IPV6", "DLT_IPV6")
    ∷ ("IEEE802_15_4_NOFCS", "DLT_IEEE802_15_4_NOFCS")
    ∷ ("DBUS", "DLT_DBUS")
    ∷ ("JUNIPER_VS", "DLT_JUNIPER_VS")
    ∷ ("JUNIPER_SRX_E2E", "DLT_JUNIPER_SRX_E2E")
    ∷ ("JUNIPER_FIBRECHANNEL", "DLT_JUNIPER_FIBRECHANNEL")
    ∷ ("DVB_CI", "DLT_DVB_CI")
    ∷ ("MUX27010", "DLT_MUX27010")
    ∷ ("STANAG_5066_D_PDU", "DLT_STANAG_5066_D_PDU")
    ∷ ("JUNIPER_ATM_CEMIC", "DLT_JUNIPER_ATM_CEMIC")
    ∷ ("NFLOG", "DLT_NFLOG")
    ∷ ("NETANALYZER", "DLT_NETANALYZER")
    ∷ ("NETANALYZER_TRANSPARENT", "DLT_NETANALYZER_TRANSPARENT")
    ∷ ("IPOIB", "DLT_IPOIB")
    ∷ ("MPEG_2_TS", "DLT_MPEG_2_TS")
    ∷ ("NG40", "DLT_NG40")
    ∷ ("NFC_LLCP", "DLT_NFC_LLCP")
    ∷ ("PFSYNC", "DLT_PFSYNC")
    ∷ ("INFINIBAND", "DLT_INFINIBAND")
    ∷ ("SCTP", "DLT_SCTP")
    ∷ ("USBPCAP", "DLT_USBPCAP")
    ∷ ("RTAC_SERIAL", "DLT_RTAC_SERIAL")
    ∷ ("BLUETOOTH_LE_LL", "DLT_BLUETOOTH_LE_LL")
    ∷ ("WIRESHARK_UPPER_PDU", "DLT_WIRESHARK_UPPER_PDU")
    ∷ ("NETLINK", "DLT_NETLINK")
    ∷ ("BLUETOOTH_LINUX_MONITOR", "DLT_BLUETOOTH_LINUX_MONITOR")
    ∷ ("BLUETOOTH_BREDR_BB", "DLT_BLUETOOTH_BREDR_BB")
    ∷ ("BLUETOOTH_LE_LL_WITH_PHDR", "DLT_BLUETOOTH_LE_LL_WITH_PHDR")
    ∷ ("PROFIBUS_DL", "DLT_PROFIBUS_DL")
    ∷ ("PKTAP", "DLT_PKTAP")
    ∷ ("EPON", "DLT_EPON")
    ∷ ("IPMI_HPM_2", "DLT_IPMI_HPM_2")
    ∷ ("ZWAVE_R1_R2", "DLT_ZWAVE_R1_R2")
    ∷ ("ZWAVE_R3", "DLT_ZWAVE_R3")
    ∷ ("WATTSTOPPER_DLM", "DLT_WATTSTOPPER_DLM")
    ∷ ("ISO_14443", "DLT_ISO_14443")
    ∷ ("RDS", "DLT_RDS")
    ∷ []

abbrev pub lookup_cases_d : List (String × String)
lookup_cases_d =
    ("USB_DARWIN", "DLT_USB_DARWIN")
    ∷ ("OPENFLOW", "DLT_OPENFLOW")
    ∷ ("SDLC", "DLT_SDLC")
    ∷ ("TI_LLN_SNIFFER", "DLT_TI_LLN_SNIFFER")
    ∷ ("LORATAP", "DLT_LORATAP")
    ∷ ("VSOCK", "DLT_VSOCK")
    ∷ ("NORDIC_BLE", "DLT_NORDIC_BLE")
    ∷ ("DOCSIS31_XRA31", "DLT_DOCSIS31_XRA31")
    ∷ ("ETHERNET_MPACKET", "DLT_ETHERNET_MPACKET")
    ∷ ("DISPLAYPORT_AUX", "DLT_DISPLAYPORT_AUX")
    ∷ ("LINUX_SLL2", "DLT_LINUX_SLL2")
    ∷ ("SERCOS_MONITOR", "DLT_SERCOS_MONITOR")
    ∷ ("OPENVIZSLA", "DLT_OPENVIZSLA")
    ∷ ("EBHSCR", "DLT_EBHSCR")
    ∷ ("VPP_DISPATCH", "DLT_VPP_DISPATCH")
    ∷ ("DSA_TAG_BRCM", "DLT_DSA_TAG_BRCM")
    ∷ ("DSA_TAG_BRCM_PREPEND", "DLT_DSA_TAG_BRCM_PREPEND")
    ∷ ("IEEE802_15_4_TAP", "DLT_IEEE802_15_4_TAP")
    ∷ ("DSA_TAG_DSA", "DLT_DSA_TAG_DSA")
    ∷ ("DSA_TAG_EDSA", "DLT_DSA_TAG_EDSA")
    ∷ ("ELEE", "DLT_ELEE")
    ∷ ("Z_WAVE_SERIAL", "DLT_Z_WAVE_SERIAL")
    ∷ ("USB_2_0", "DLT_USB_2_0")
    ∷ ("ATSC_ALP", "DLT_ATSC_ALP")
    ∷ ("ETW", "DLT_ETW")
    ∷ ("NETANALYZER_NG", "DLT_NETANALYZER_NG")
    ∷ ("ZBOSS_NCP", "DLT_ZBOSS_NCP")
    ∷ ("USB_2_0_LOW_SPEED", "DLT_USB_2_0_LOW_SPEED")
    ∷ ("USB_2_0_FULL_SPEED", "DLT_USB_2_0_FULL_SPEED")
    ∷ ("USB_2_0_HIGH_SPEED", "DLT_USB_2_0_HIGH_SPEED")
    ∷ ("AUERSWALD_LOG", "DLT_AUERSWALD_LOG")
    ∷ ("ZWAVE_TAP", "DLT_ZWAVE_TAP")
    ∷ ("SILABS_DEBUG_CHANNEL", "DLT_SILABS_DEBUG_CHANNEL")
    ∷ ("FIRA_UCI", "DLT_FIRA_UCI")
    ∷ ("MDB", "DLT_MDB")
    ∷ ("DECT_NR", "DLT_DECT_NR")
    ∷ ("EDK2_MM", "DLT_EDK2_MM")
    ∷ ("DEBUG_ONLY", "DLT_DEBUG_ONLY")
    ∷ ("DECT_NR_TAP", "DLT_DECT_NR_TAP")
    ∷ []

unfoldable pub lookup_cases : List (String × String)
lookup_cases = lookup_cases_a ++ (lookup_cases_b ++ (lookup_cases_c ++ (lookup_cases_d)))
