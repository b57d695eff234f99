-- ===== src/Tiger/Table1.antt =====
-- The first quarter of `TigerHash::table` in adclib/tiger.cpp, the macro `t1`.
use luadch.Common.{ℕ, List, [], ◌∷◌}

unfoldable pub t1 : List ℕ
t1 =
    0x02aab17cf7e90c5e ∷ 0xac424b03e243a8ec ∷ 0x72cd5be30dd5fcd3 ∷ 0x6d019b93f6f97f3a
    ∷ 0xcd9978ffd21f9193 ∷ 0x7573a1c9708029e2 ∷ 0xb164326b922a83c3 ∷ 0x46883eee04915870
    ∷ 0xeaace3057103ece6 ∷ 0xc54169b808a3535c ∷ 0x4ce754918ddec47c ∷ 0x0aa2f4dfdc0df40c
    ∷ 0x10b76f18a74dbefa ∷ 0xc6ccb6235ad1ab6a ∷ 0x13726121572fe2ff ∷ 0x1a488c6f199d921e
    ∷ 0x4bc9f9f4da0007ca ∷ 0x26f5e6f6e85241c7 ∷ 0x859079dbea5947b6 ∷ 0x4f1885c5c99e8c92
    ∷ 0xd78e761ea96f864b ∷ 0x8e36428c52b5c17d ∷ 0x69cf6827373063c1 ∷ 0xb607c93d9bb4c56e
    ∷ 0x7d820e760e76b5ea ∷ 0x645c9cc6f07fdc42 ∷ 0xbf38a078243342e0 ∷ 0x5f6b343c9d2e7d04
    ∷ 0xf2c28aeb600b0ec6 ∷ 0x6c0ed85f7254bcac ∷ 0x71592281a4db4fe5 ∷ 0x1967fa69ce0fed9f
    ∷ 0xfd5293f8b96545db ∷ 0xc879e9d7f2a7600b ∷ 0x860248920193194e ∷ 0xa4f9533b2d9cc0b3
    ∷ 0x9053836c15957613 ∷ 0xdb6dcf8afc357bf1 ∷ 0x18beea7a7a370f57 ∷ 0x037117ca50b99066
    ∷ 0x6ab30a9774424a35 ∷ 0xf4e92f02e325249b ∷ 0x7739db07061ccae1 ∷ 0xd8f3b49ceca42a05
    ∷ 0xbd56be3f51382f73 ∷ 0x45faed5843b0bb28 ∷ 0x1c813d5c11bf1f83 ∷ 0x8af0e4b6d75fa169
    ∷ 0x33ee18a487ad9999 ∷ 0x3c26e8eab1c94410 ∷ 0xb510102bc0a822f9 ∷ 0x141eef310ce6123b
    ∷ 0xfc65b90059ddb154 ∷ 0xe0158640c5e0e607 ∷ 0x884e079826c3a3cf ∷ 0x930d0d9523c535fd
    ∷ 0x35638d754e9a2b00 ∷ 0x4085fccf40469dd5 ∷ 0xc4b17ad28be23a4c ∷ 0xcab2f0fc6a3e6a2e
    ∷ 0x2860971a6b943fcd ∷ 0x3dde6ee212e30446 ∷ 0x6222f32ae01765ae ∷ 0x5d550bb5478308fe
    ∷ 0xa9efa98da0eda22a ∷ 0xc351a71686c40da7 ∷ 0x1105586d9c867c84 ∷ 0xdcffee85fda22853
    ∷ 0xccfbd0262c5eef76 ∷ 0xbaf294cb8990d201 ∷ 0xe69464f52afad975 ∷ 0x94b013afdf133e14
    ∷ 0x06a7d1a32823c958 ∷ 0x6f95fe5130f61119 ∷ 0xd92ab34e462c06c0 ∷ 0xed7bde33887c71d2
    ∷ 0x79746d6e6518393e ∷ 0x5ba419385d713329 ∷ 0x7c1ba6b948a97564 ∷ 0x31987c197bfdac67
    ∷ 0xde6c23c44b053d02 ∷ 0x581c49fed002d64d ∷ 0xdd474d6338261571 ∷ 0xaa4546c3e473d062
    ∷ 0x928fce349455f860 ∷ 0x48161bbacaab94d9 ∷ 0x63912430770e6f68 ∷ 0x6ec8a5e602c6641c
    ∷ 0x87282515337ddd2b ∷ 0x2cda6b42034b701b ∷ 0xb03d37c181cb096d ∷ 0xe108438266c71c6f
    ∷ 0x2b3180c7eb51b255 ∷ 0xdf92b82f96c08bbc ∷ 0x5c68c8c0a632f3ba ∷ 0x5504cc861c3d0556
    ∷ 0xabbfa4e55fb26b8f ∷ 0x41848b0ab3baceb4 ∷ 0xb334a273aa445d32 ∷ 0xbca696f0a85ad881
    ∷ 0x24f6ec65b528d56c ∷ 0x0ce1512e90f4524a ∷ 0x4e9dd79d5506d35a ∷ 0x258905fac6ce9779
    ∷ 0x2019295b3e109b33 ∷ 0xf8a9478b73a054cc ∷ 0x2924f2f934417eb0 ∷ 0x3993357d536d1bc4
    ∷ 0x38a81ac21db6ff8b ∷ 0x47c4fbf17d6016bf ∷ 0x1e0faadd7667e3f5 ∷ 0x7abcff62938beb96
    ∷ 0xa78dad948fc179c9 ∷ 0x8f1f98b72911e50d ∷ 0x61e48eae27121a91 ∷ 0x4d62f7ad31859808
    ∷ 0xeceba345ef5ceaeb ∷ 0xf5ceb25ebc9684ce ∷ 0xf633e20cb7f76221 ∷ 0xa32cdf06ab8293e4
    ∷ 0x985a202ca5ee2ca4 ∷ 0xcf0b8447cc8a8fb1 ∷ 0x9f765244979859a3 ∷ 0xa8d516b1a1240017
    ∷ 0x0bd7ba3ebb5dc726 ∷ 0xe54bca55b86adb39 ∷ 0x1d7a3afd6c478063 ∷ 0x519ec608e7669edd
    ∷ 0x0e5715a2d149aa23 ∷ 0x177d4571848ff194 ∷ 0xeeb55f3241014c22 ∷ 0x0f5e5ca13a6e2ec2
    ∷ 0x8029927b75f5c361 ∷ 0xad139fabc3d6e436 ∷ 0x0d5df1a94ccf402f ∷ 0x3e8bd948bea5dfc8
    ∷ 0xa5a0d357bd3ff77e ∷ 0xa2d12e251f74f645 ∷ 0x66fd9e525e81a082 ∷ 0x2e0c90ce7f687a49
    ∷ 0xc2e8bcbeba973bc5 ∷ 0x000001bce509745f ∷ 0x423777bbe6dab3d6 ∷ 0xd1661c7eaef06eb5
    ∷ 0xa1781f354daacfd8 ∷ 0x2d11284a2b16affc ∷ 0xf1fc4f67fa891d1f ∷ 0x73ecc25dcb920ada
    ∷ 0xae610c22c2a12651 ∷ 0x96e0a810d356b78a ∷ 0x5a9a381f2fe7870f ∷ 0xd5ad62ede94e5530
    ∷ 0xd225e5e8368d1427 ∷ 0x65977b70c7af4631 ∷ 0x99f889b2de39d74f ∷ 0x233f30bf54e1d143
    ∷ 0x9a9675d3d9a63c97 ∷ 0x5470554ff334f9a8 ∷ 0x166acb744a4f5688 ∷ 0x70c74caab2e4aead
    ∷ 0xf0d091646f294d12 ∷ 0x57b82a89684031d1 ∷ 0xefd95a5a61be0b6b ∷ 0x2fbd12e969f2f29a
    ∷ 0x9bd37013feff9fe8 ∷ 0x3f9b0404d6085a06 ∷ 0x4940c1f3166cfe15 ∷ 0x09542c4dcdf3defb
    ∷ 0xb4c5218385cd5ce3 ∷ 0xc935b7dc4462a641 ∷ 0x3417f8a68ed3b63f ∷ 0xb80959295b215b40
    ∷ 0xf99cdaef3b8c8572 ∷ 0x018c0614f8fcb95d ∷ 0x1b14accd1a3acdf3 ∷ 0x84d471f200bb732d
    ∷ 0xc1a3110e95e8da16 ∷ 0x430a7220bf1a82b8 ∷ 0xb77e090d39df210e ∷ 0x5ef4bd9f3cd05e9d
    ∷ 0x9d4ff6da7e57a444 ∷ 0xda1d60e183d4a5f8 ∷ 0xb287c38417998e47 ∷ 0xfe3edc121bb31886
    ∷ 0xc7fe3ccc980ccbef ∷ 0xe46fb590189bfd03 ∷ 0x3732fd469a4c57dc ∷ 0x7ef700a07cf1ad65
    ∷ 0x59c64468a31d8859 ∷ 0x762fb0b4d45b61f6 ∷ 0x155baed099047718 ∷ 0x68755e4c3d50baa6
    ∷ 0xe9214e7f22d8b4df ∷ 0x2addbf532eac95f4 ∷ 0x32ae3909b4bd0109 ∷ 0x834df537b08e3450
    ∷ 0xfa209da84220728d ∷ 0x9e691d9b9efe23f7 ∷ 0x0446d288c4ae8d7f ∷ 0x7b4cc524e169785b
    ∷ 0x21d87f0135ca1385 ∷ 0xcebb400f137b8aa5 ∷ 0x272e2b66580796be ∷ 0x3612264125c2b0de
    ∷ 0x057702bdad1efbb2 ∷ 0xd4babb8eacf84be9 ∷ 0x91583139641bc67b ∷ 0x8bdc2de08036e024
    ∷ 0x603c8156f49f68ed ∷ 0xf7d236f7dbef5111 ∷ 0x9727c4598ad21e80 ∷ 0xa08a0896670a5fd7
    ∷ 0xcb4a8f4309eba9cb ∷ 0x81af564b0f7036a1 ∷ 0xc0b99aa778199abd ∷ 0x959f1ec83fc8e952
    ∷ 0x8c505077794a81b9 ∷ 0x3acaaf8f056338f0 ∷ 0x07b43f50627a6778 ∷ 0x4a44ab49f5eccc77
    ∷ 0x3bc3d6e4b679ee98 ∷ 0x9cc0d4d1cf14108c ∷ 0x4406c00b206bc8a0 ∷ 0x82a18854c8d72d89
    ∷ 0x67e366b35c3c432c ∷ 0xb923dd61102b37f2 ∷ 0x56ab2779d884271d ∷ 0xbe83e1b0ff1525af
    ∷ 0xfb7c65d4217e49a9 ∷ 0x6bdbe0e76d48e7d4 ∷ 0x08df828745d9179e ∷ 0x22ea6a9add53bd34
    ∷ 0xe36e141c5622200a ∷ 0x7f805d1b8cb750ee ∷ 0xafe5c7a59f58e837 ∷ 0xe27f996a4fb1c23c
    ∷ 0xd3867dfb0775f0d0 ∷ 0xd0e673de6e88891a ∷ 0x123aeb9eafb86c25 ∷ 0x30f1d5d5c145b895
    ∷ 0xbb434a2dee7269e7 ∷ 0x78cb67ecf931fa38 ∷ 0xf33b0372323bbf9c ∷ 0x52d66336fb279c74
    ∷ 0x505f33ac0afb4eaa ∷ 0xe8a5cd99a2cce187 ∷ 0x534974801e2d30bb ∷ 0x8d2d5711d5876d90
    ∷ 0x1f1a412891bc038e ∷ 0xd6e2e71d82e56648 ∷ 0x74036c3a497732b7 ∷ 0x89b67ed96361f5ab
    ∷ 0xffed95d8f1ea02a2 ∷ 0xe72b3bd61464d43d ∷ 0xa6300f170bdc4820 ∷ 0xebc18760ed78a77a ∷ []
