-- ===== src/Tiger/Table2.antt =====
-- The second quarter of `TigerHash::table` in adclib/tiger.cpp, the macro `t2`.
use luadch.Common.{ℕ, List, [], ◌∷◌}

unfoldable pub t2 : List ℕ
t2 =
    0xe6a6be5a05a12138 ∷ 0xb5a122a5b4f87c98 ∷ 0x563c6089140b6990 ∷ 0x4c46cb2e391f5dd5
    ∷ 0xd932addbc9b79434 ∷ 0x08ea70e42015aff5 ∷ 0xd765a6673e478cf1 ∷ 0xc4fb757eab278d99
    ∷ 0xdf11c6862d6e0692 ∷ 0xddeb84f10d7f3b16 ∷ 0x6f2ef604a665ea04 ∷ 0x4a8e0f0ff0e0dfb3
    ∷ 0xa5edeef83dbcba51 ∷ 0xfc4f0a2a0ea4371e ∷ 0xe83e1da85cb38429 ∷ 0xdc8ff882ba1b1ce2
    ∷ 0xcd45505e8353e80d ∷ 0x18d19a00d4db0717 ∷ 0x34a0cfeda5f38101 ∷ 0x0be77e518887caf2
    ∷ 0x1e341438b3c45136 ∷ 0xe05797f49089ccf9 ∷ 0xffd23f9df2591d14 ∷ 0x543dda228595c5cd
    ∷ 0x661f81fd99052a33 ∷ 0x8736e641db0f7b76 ∷ 0x15227725418e5307 ∷ 0xe25f7f46162eb2fa
    ∷ 0x48a8b2126c13d9fe ∷ 0xafdc541792e76eea ∷ 0x03d912bfc6d1898f ∷ 0x31b1aafa1b83f51b
    ∷ 0xf1ac2796e42ab7d9 ∷ 0x40a3a7d7fcd2ebac ∷ 0x1056136d0afbbcc5 ∷ 0x7889e1dd9a6d0c85
    ∷ 0xd33525782a7974aa ∷ 0xa7e25d09078ac09b ∷ 0xbd4138b3eac6edd0 ∷ 0x920abfbe71eb9e70
    ∷ 0xa2a5d0f54fc2625c ∷ 0xc054e36b0b1290a3 ∷ 0xf6dd59ff62fe932b ∷ 0x3537354511a8ac7d
    ∷ 0xca845e9172fadcd4 ∷ 0x84f82b60329d20dc ∷ 0x79c62ce1cd672f18 ∷ 0x8b09a2add124642c
    ∷ 0xd0c1e96a19d9e726 ∷ 0x5a786a9b4ba9500c ∷ 0x0e020336634c43f3 ∷ 0xc17b474aeb66d822
    ∷ 0x6a731ae3ec9baac2 ∷ 0x8226667ae0840258 ∷ 0x67d4567691caeca5 ∷ 0x1d94155c4875adb5
    ∷ 0x6d00fd985b813fdf ∷ 0x51286efcb774cd06 ∷ 0x5e8834471fa744af ∷ 0xf72ca0aee761ae2e
    ∷ 0xbe40e4cdaee8e09a ∷ 0xe9970bbb5118f665 ∷ 0x726e4beb33df1964 ∷ 0x703b000729199762
    ∷ 0x4631d816f5ef30a7 ∷ 0xb880b5b51504a6be ∷ 0x641793c37ed84b6c ∷ 0x7b21ed77f6e97d96
    ∷ 0x776306312ef96b73 ∷ 0xae528948e86ff3f4 ∷ 0x53dbd7f286a3f8f8 ∷ 0x16cadce74cfc1063
    ∷ 0x005c19bdfa52c6dd ∷ 0x68868f5d64d46ad3 ∷ 0x3a9d512ccf1e186a ∷ 0x367e62c2385660ae
    ∷ 0xe359e7ea77dcb1d7 ∷ 0x526c0773749abe6e ∷ 0x735ae5f9d09f734b ∷ 0x493fc7cc8a558ba8
    ∷ 0xb0b9c1533041ab45 ∷ 0x321958ba470a59bd ∷ 0x852db00b5f46c393 ∷ 0x91209b2bd336b0e5
    ∷ 0x6e604f7d659ef19f ∷ 0xb99a8ae2782ccb24 ∷ 0xccf52ab6c814c4c7 ∷ 0x4727d9afbe11727b
    ∷ 0x7e950d0c0121b34d ∷ 0x756f435670ad471f ∷ 0xf5add442615a6849 ∷ 0x4e87e09980b9957a
    ∷ 0x2acfa1df50aee355 ∷ 0xd898263afd2fd556 ∷ 0xc8f4924dd80c8fd6 ∷ 0xcf99ca3d754a173a
    ∷ 0xfe477bacaf91bf3c ∷ 0xed5371f6d690c12d ∷ 0x831a5c285e687094 ∷ 0xc5d3c90a3708a0a4
    ∷ 0x0f7f903717d06580 ∷ 0x19f9bb13b8fdf27f ∷ 0xb1bd6f1b4d502843 ∷ 0x1c761ba38fff4012
    ∷ 0x0d1530c4e2e21f3b ∷ 0x8943ce69a7372c8a ∷ 0xe5184e11feb5ce66 ∷ 0x618bdb80bd736621
    ∷ 0x7d29bad68b574d0b ∷ 0x81bb613e25e6fe5b ∷ 0x071c9c10bc07913f ∷ 0xc7beeb7909ac2d97
    ∷ 0xc3e58d353bc5d757 ∷ 0xeb017892f38f61e8 ∷ 0xd4effb9c9b1cc21a ∷ 0x99727d26f494f7ab
    ∷ 0xa3e063a2956b3e03 ∷ 0x9d4a8b9a4aa09c30 ∷ 0x3f6ab7d500090fb4 ∷ 0x9cc0f2a057268ac0
    ∷ 0x3dee9d2dedbf42d1 ∷ 0x330f49c87960a972 ∷ 0xc6b2720287421b41 ∷ 0x0ac59ec07c00369c
    ∷ 0xef4eac49cb353425 ∷ 0xf450244eef0129d8 ∷ 0x8acc46e5caf4deb6 ∷ 0x2ffeab63989263f7
    ∷ 0x8f7cb9fe5d7a4578 ∷ 0x5bd8f7644e634635 ∷ 0x427a7315bf2dc900 ∷ 0x17d0c4aa2125261c
    ∷ 0x3992486c93518e50 ∷ 0xb4cbfee0a2d7d4c3 ∷ 0x7c75d6202c5ddd8d ∷ 0xdbc295d8e35b6c61
    ∷ 0x60b369d302032b19 ∷ 0xce42685fdce44132 ∷ 0x06f3ddb9ddf65610 ∷ 0x8ea4d21db5e148f0
    ∷ 0x20b0fce62fcd496f ∷ 0x2c1b912358b0ee31 ∷ 0xb28317b818f5a308 ∷ 0xa89c1e189ca6d2cf
    ∷ 0x0c6b18576aaadbc8 ∷ 0xb65deaa91299fae3 ∷ 0xfb2b794b7f1027e7 ∷ 0x04e4317f443b5beb
    ∷ 0x4b852d325939d0a6 ∷ 0xd5ae6beefb207ffc ∷ 0x309682b281c7d374 ∷ 0xbae309a194c3b475
    ∷ 0x8cc3f97b13b49f05 ∷ 0x98a9422ff8293967 ∷ 0x244b16b01076ff7c ∷ 0xf8bf571c663d67ee
    ∷ 0x1f0d6758eee30da1 ∷ 0xc9b611d97adeb9b7 ∷ 0xb7afd5887b6c57a2 ∷ 0x6290ae846b984fe1
    ∷ 0x94df4cdeacc1a5fd ∷ 0x058a5bd1c5483aff ∷ 0x63166cc142ba3c37 ∷ 0x8db8526eb2f76f40
    ∷ 0xe10880036f0d6d4e ∷ 0x9e0523c9971d311d ∷ 0x45ec2824cc7cd691 ∷ 0x575b8359e62382c9
    ∷ 0xfa9e400dc4889995 ∷ 0xd1823ecb45721568 ∷ 0xdafd983b8206082f ∷ 0xaa7d29082386a8cb
    ∷ 0x269fcd4403b87588 ∷ 0x1b91f5f728bdd1e0 ∷ 0xe4669f39040201f6 ∷ 0x7a1d7c218cf04ade
    ∷ 0x65623c29d79ce5ce ∷ 0x2368449096c00bb1 ∷ 0xab9bf1879da503ba ∷ 0xbc23ecb1a458058e
    ∷ 0x9a58df01bb401ecc ∷ 0xa070e868a85f143d ∷ 0x4ff188307df2239e ∷ 0x14d565b41a641183
    ∷ 0xee13337452701602 ∷ 0x950e3dcf3f285e09 ∷ 0x59930254b9c80953 ∷ 0x3bf299408930da6d
    ∷ 0xa955943f53691387 ∷ 0xa15edecaa9cb8784 ∷ 0x29142127352be9a0 ∷ 0x76f0371fff4e7afb
    ∷ 0x0239f450274f2228 ∷ 0xbb073af01d5e868b ∷ 0xbfc80571c10e96c1 ∷ 0xd267088568222e23
    ∷ 0x9671a3d48e80b5b0 ∷ 0x55b5d38ae193bb81 ∷ 0x693ae2d0a18b04b8 ∷ 0x5c48b4ecadd5335f
    ∷ 0xfd743b194916a1ca ∷ 0x2577018134be98c4 ∷ 0xe77987e83c54a4ad ∷ 0x28e11014da33e1b9
    ∷ 0x270cc59e226aa213 ∷ 0x71495f756d1a5f60 ∷ 0x9be853fb60afef77 ∷ 0xadc786a7f7443dbf
    ∷ 0x0904456173b29a82 ∷ 0x58bc7a66c232bd5e ∷ 0xf306558c673ac8b2 ∷ 0x41f639c6b6c9772a
    ∷ 0x216defe99fda35da ∷ 0x11640cc71c7be615 ∷ 0x93c43694565c5527 ∷ 0xea038e6246777839
    ∷ 0xf9abf3ce5a3e2469 ∷ 0x741e768d0fd312d2 ∷ 0x0144b883ced652c6 ∷ 0xc20b5a5ba33f8552
    ∷ 0x1ae69633c3435a9d ∷ 0x97a28ca4088cfdec ∷ 0x8824a43c1e96f420 ∷ 0x37612fa66eeea746
    ∷ 0x6b4cb165f9cf0e5a ∷ 0x43aa1c06a0abfb4a ∷ 0x7f4dc26ff162796b ∷ 0x6cbacc8e54ed9b0f
    ∷ 0xa6b7ffefd2bb253e ∷ 0x2e25bc95b0a29d4f ∷ 0x86d6a58bdef1388c ∷ 0xded74ac576b6f054
    ∷ 0x8030bdbc2b45805d ∷ 0x3c81af70e94d9289 ∷ 0x3eff6dda9e3100db ∷ 0xb38dc39fdfcc8847
    ∷ 0x123885528d17b87e ∷ 0xf2da0ed240b1b642 ∷ 0x44cefadcd54bf9a9 ∷ 0x1312200e433c7ee6
    ∷ 0x9ffcc84f3a78c748 ∷ 0xf0cd1f72248576bb ∷ 0xec6974053638cfe4 ∷ 0x2ba7b67c0cec4e4c
    ∷ 0xac2f4df3e5ce32ed ∷ 0xcb33d14326ea4c11 ∷ 0xa4e9044cc77e58bc ∷ 0x5f513293d934fcef
    ∷ 0x5dc9645506e55444 ∷ 0x50de418f317de40a ∷ 0x388cb31a69dde259 ∷ 0x2db4a83455820a86
    ∷ 0x9010a91e84711ae9 ∷ 0x4df7f0b7b1498371 ∷ 0xd62a2eabc0977179 ∷ 0x22fac097aa8d5c0e ∷ []
